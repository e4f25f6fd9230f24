-- ===== src/Encryption/RoundTrip.antt =====
-- Decryption after encryption.
use code2cloud.Prelude.{ℕ, String, ◌≡◌, ◌≢◌, none, some, [], ◌∷◌, arith, eq_iff}
use code2cloud.Encryption.Split.{split_colon, split_colon-append, split_colon_of_NoColon}
use code2cloud.Encryption.{Crypto, encrypt, decrypt}

module _ ⦃crypto : Crypto⦄ (n : ℕ) where
  split_colon-encrypt :
      (plain : String)
      → split_colon (encrypt n plain)
        ≡ crypto.draw n
          ∷ (crypto.seal (crypto.draw n) plain).0
          ∷ (crypto.seal (crypto.draw n) plain).1
          ∷ []
  unfolding encrypt
  split_colon-encrypt plain =
      let texts = crypto.seal_text (crypto.draw n) plain in
      rw (
        split_colon-append (crypto.draw n) _ (crypto.draw_text n).0,
        split_colon-append _ _ texts.0,
        split_colon_of_NoColon _ texts.1,
      )

  -- Whatever the draw, a text that is not empty is decrypted to itself.
  pub decrypt-encrypt : (plain : String) → plain ≢ "" → decrypt (encrypt n plain) ≡ some plain
  unfolding decrypt
  decrypt-encrypt plain h = rw (split_colon-encrypt plain) (
      ground (
        arith,
        eq_iff (crypto.draw n) "",
        eq_iff (crypto.seal (crypto.draw n) plain).0 "",
        eq_iff (crypto.seal (crypto.draw n) plain).1 "",
        (crypto.draw_text n).1,
        crypto.tag_nonempty (crypto.draw n) plain,
        crypto.seal_nonempty (crypto.draw n) plain h,
        crypto.open-seal (crypto.draw n) plain,
      ))

  -- The payload of the empty text is rejected by `decrypt`, whatever the draw.
  pub decrypt-encrypt_empty : decrypt (encrypt n "") ≡ none
  unfolding decrypt
  decrypt-encrypt_empty = rw (split_colon-encrypt "") (
      ground
        (arith, eq_iff (crypto.seal (crypto.draw n) "").1 "", crypto.seal_empty (crypto.draw n)))
