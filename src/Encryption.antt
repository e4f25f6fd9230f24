-- ===== src/Encryption.antt =====
-- apps/api/src/common/utils/encryption.service.ts. The cipher of node's crypto is a parameter with
-- its documented behaviour: AES-256-GCM under the service's key, all byte strings as hex texts.
pub mod Split
pub mod RoundTrip
use Prim.Native.String.{◌++◌}
use code2cloud.Prelude.{
  ℕ, String, ◌≡◌, ◌≢◌, Bool, true, false, Option, none, some, List, [], ◌∷◌, ◌==◌, ◌||◌,
  if◌then◌else◌,
}
use code2cloud.Encryption.Split.{NoColon, split_colon}

pub record Crypto : Type 0 where
  -- randomBytes(12) as hex: the n-th draw of a request
  pub draw : ℕ → String
  pub draw_text : (n : ℕ) → NoColon (draw n) × (draw n ≢ "")
  -- (authTagHex, encryptedHex) of a plain text under an initialisation vector
  pub seal : (iv plain : String) → String × String
  pub seal_text : (iv plain : String) → NoColon (seal iv plain).0 × NoColon (seal iv plain).1
  pub tag_nonempty : (iv plain : String) → (seal iv plain).0 ≢ ""
  -- a cipher text of GCM has the length of its plain text
  pub seal_nonempty : (iv plain : String) → plain ≢ "" → (seal iv plain).1 ≢ ""
  pub seal_empty : (iv : String) → (seal iv "").1 ≡ ""
  -- decipher with an authentication tag: `none` is a throw
  pub open_sealed : (iv tag encrypted : String) → Option String
  pub open-seal :
      (iv plain : String) → open_sealed iv (seal iv plain).0 (seal iv plain).1 ≡ some plain

module _ ⦃crypto : Crypto⦄ where
  -- encrypt, with the n-th draw
  unfoldable pub encrypt : ℕ → String → String
  encrypt n plain =
      let sealed = crypto.seal (crypto.draw n) plain in
      crypto.draw n ++ (":" ++ (sealed.0 ++ (":" ++ sealed.1)))

  -- the destructured parts of the payload; a missing or an empty one is rejected
  abbrev decrypt_parts : List String → Option String
  decrypt_parts (iv ∷ tag ∷ encrypted ∷ _) =
      if iv == "" || (tag == "" || encrypted == "")
      then none
      else crypto.open_sealed iv tag encrypted
  decrypt_parts _ = none

  -- decrypt: `none` is a throw
  unfoldable pub decrypt : String → Option String
  decrypt payload = decrypt_parts (split_colon payload)
