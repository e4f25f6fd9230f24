-- ===== src/DeploymentPage/Pipeline.antt =====
-- apps/web/components/project/PipelineVisualizer.tsx: the stages of a deployment.
use code2cloud.Prelude.{
  ℕ, zero, suc, ◌-◌, ◌*◌, ◌/◌, String, Bool, true, false, Option, none, some, List, [], ◌∷◌, ◌≡◌,
  ◌⊎◌, inl, inr, refl, any, all, filter, length, nat_eq, if◌then◌else◌,
}
use code2cloud.Schema.{
  DeploymentStatus, queued, building, deploying, ready, failed, canceled, expired, superseded,
  is_in_progress,
}

pub data StepStatus : Type 0 where
  completed active pending halted : StepStatus

-- Without its icon; `halted` stands for the source's "failed".
pub record PipelineStep : Type 0 where
  pub label : String
  pub sublabel : Option String
  pub status : StepStatus

abbrev step : String → Option String → StepStatus → PipelineStep
step label sublabel status = record { label = label; sublabel = sublabel; status = status }

abbrev cloned : StepStatus → PipelineStep
cloned status = step "Source" (some "Cloned") status

abbrev waiting : String → PipelineStep
waiting label = step label none pending

abbrev finished : String → String → PipelineStep
finished label sublabel = step label (some sublabel) completed

unfoldable pub steps_of : DeploymentStatus → List PipelineStep
steps_of queued =
    step "Queued" (some "Waiting…") active
    ∷ cloned pending
    ∷ waiting "Build"
    ∷ waiting "Deploy"
    ∷ waiting "Ready"
    ∷ []
steps_of building =
    finished "Queued" "Done"
    ∷ cloned completed
    ∷ step "Build" (some "Compiling…") active
    ∷ waiting "Deploy"
    ∷ waiting "Ready"
    ∷ []
steps_of deploying =
    finished "Queued" "Done"
    ∷ cloned completed
    ∷ finished "Build" "Success"
    ∷ step "Deploy" (some "Pushing…") active
    ∷ waiting "Ready"
    ∷ []
steps_of ready =
    finished "Queued" "Done"
    ∷ cloned completed
    ∷ finished "Build" "Success"
    ∷ finished "Deploy" "Live"
    ∷ finished "Ready" "Online"
    ∷ []
steps_of failed =
    finished "Queued" "Done"
    ∷ cloned completed
    ∷ step "Build" (some "Failed") halted
    ∷ waiting "Deploy"
    ∷ waiting "Ready"
    ∷ []
steps_of canceled =
    finished "Queued" "Canceled"
    ∷ cloned completed
    ∷ waiting "Build"
    ∷ waiting "Deploy"
    ∷ waiting "Ready"
    ∷ []
steps_of expired =
    finished "Queued" "Done"
    ∷ cloned completed
    ∷ finished "Build" "Done"
    ∷ finished "Deploy" "Expired"
    ∷ waiting "Ready"
    ∷ []
steps_of superseded =
    finished "Queued" "Done"
    ∷ cloned completed
    ∷ finished "Build" "Done"
    ∷ finished "Deploy" "Superseded"
    ∷ step "Ready" none completed
    ∷ []

-- `getStepsFromStatus`: a missing status counts as queued.
abbrev pub get_steps_from_status : Option DeploymentStatus → List PipelineStep
get_steps_from_status none = steps_of queued
get_steps_from_status (some s) = steps_of s

abbrev pub is_step_done : StepStatus → Bool
is_step_done completed = true
is_step_done _ = false

abbrev pub is_under_way : StepStatus → Bool
is_under_way active = true
is_under_way _ = false

abbrev pub is_halted : StepStatus → Bool
is_halted halted = true
is_halted _ = false

abbrev pub is_reached : StepStatus → Bool
is_reached pending = false
is_reached _ = true

-- The loop from the last step down: the index of the last step that is reached.
abbrev pub furthest_reached : ℕ → List PipelineStep → Option ℕ
furthest_reached i [] = none
furthest_reached i (s ∷ rest) = elim (furthest_reached (suc i) rest) [
  | some j ↦ some j
  | none ↦ if is_reached s.status then some i else none
]

abbrev pub percent_of : Option ℕ → ℕ → ℕ
percent_of none last = 0
percent_of (some zero) last = 0
percent_of (some (suc i)) last = (suc i * 100) / last

-- `(furthest / last) * 100`, exact for five steps.
unfoldable pub get_progress_percent : List PipelineStep → ℕ
get_progress_percent steps = percent_of (furthest_reached 0 steps) (length steps - 1)

abbrev pub is_all_done : List PipelineStep → Bool
is_all_done steps = all (λ (s : PipelineStep). is_step_done s.status) steps

abbrev pub has_failed : List PipelineStep → Bool
has_failed steps = any (λ (s : PipelineStep). is_halted s.status) steps

-- Completed steps come first, then at most one that is active or failed, then the pending ones.
abbrev pub IsOrdered : List PipelineStep → Type 0
IsOrdered [] = Unit
IsOrdered (s ∷ rest) =
    ((is_step_done s.status ≡ true) × IsOrdered rest)
    ⊎ ((is_step_done s.status ≡ false)
        × (any (λ (t : PipelineStep). is_reached t.status) rest ≡ false))

abbrev pub is_served : DeploymentStatus → Bool
is_served ready = true
is_served superseded = true
is_served _ = false

abbrev pub is_failure : DeploymentStatus → Bool
is_failure failed = true
is_failure _ = false

abbrev pub count_under_way : List PipelineStep → ℕ
count_under_way steps = length (filter (λ (s : PipelineStep). is_under_way s.status) steps)

steps_of-IsOrdered : (s : DeploymentStatus) → IsOrdered (steps_of s)
unfolding steps_of
steps_of-IsOrdered queued = inr (refl, refl)
steps_of-IsOrdered building = inl (refl, inl (refl, inr (refl, refl)))
steps_of-IsOrdered deploying = inl (refl, inl (refl, inl (refl, inr (refl, refl))))
steps_of-IsOrdered ready = inl (refl, inl (refl, inl (refl, inl (refl, inl (refl, tt)))))
steps_of-IsOrdered failed = inl (refl, inl (refl, inr (refl, refl)))
steps_of-IsOrdered canceled = inl (refl, inl (refl, inr (refl, refl)))
steps_of-IsOrdered expired = inl (refl, inl (refl, inl (refl, inl (refl, inr (refl, refl)))))
steps_of-IsOrdered superseded = inl (refl, inl (refl, inl (refl, inl (refl, inl (refl, tt)))))

-- The picture of a deployment in any status has its completed stages first, exactly one active stage
-- while the deployment is in progress and none afterwards, a failed stage just if it failed, and is
-- all done, with the bar at 100 percent, just if the deployment is ready or was superseded.
pub steps_of_lem :
    (s : DeploymentStatus)
    → IsOrdered (steps_of s)
      × (count_under_way (steps_of s) ≡ (if is_in_progress s then 1 else 0))
      × (has_failed (steps_of s) ≡ is_failure s)
      × (is_all_done (steps_of s) ≡ is_served s)
      × (nat_eq (get_progress_percent (steps_of s)) 100 ≡ is_served s)
unfolding steps_of get_progress_percent
steps_of_lem queued = (steps_of-IsOrdered queued, refl, refl, refl, refl)
steps_of_lem building = (steps_of-IsOrdered building, refl, refl, refl, refl)
steps_of_lem deploying = (steps_of-IsOrdered deploying, refl, refl, refl, refl)
steps_of_lem ready = (steps_of-IsOrdered ready, refl, refl, refl, refl)
steps_of_lem failed = (steps_of-IsOrdered failed, refl, refl, refl, refl)
steps_of_lem canceled = (steps_of-IsOrdered canceled, refl, refl, refl, refl)
steps_of_lem expired = (steps_of-IsOrdered expired, refl, refl, refl, refl)
steps_of_lem superseded = (steps_of-IsOrdered superseded, refl, refl, refl, refl)
