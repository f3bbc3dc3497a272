-- ===== src/Startup/Attempts.antt =====
-- A call of an initialisation, as a case distinction on its answer.
use nrp_reference.Base.{
  ℕ, ◌≡◌, inl, inr, Bool, true, false, List, [], ◌∷◌, Option, some, Outcome, ok, arith, Bool-cases,
}
use nrp_reference.Base.Int.{ℤ}
use nrp_reference.Startup.{
  Call, bind_socket, System, ◌followed_by◌, attempt, is_negative, is_nonzero,
}

-- What `bind` and the other calls answer when they fail.
abbrev pub is_failure : Call → ℤ → Bool
is_failure (bind_socket fd address size) answer = is_nonzero answer
is_failure _ answer = is_negative answer

-- The last call failed and set `errno` to the code.
abbrev pub Failed : System → List Call → ℕ → Type 0
Failed os [] code = ⊥
Failed os (call ∷ before) code =
    (is_failure call (os before call).0 ≡ true) × ((os before call).1 ≡ code)

-- A call by itself and before what follows it.
pub attempt_cases {ℓ} :
    {Object : Type ℓ} (P : Outcome (Object × List Call × Option ℕ) → Type 0) (os : System)
    (fails : ℤ → Bool) (call : Call) (keep : ℤ → Object) (calls : List Call)
    (next : Object → List Call → Outcome (Object × List Call × Option ℕ))
    → (fails (os calls call).0 ≡ true
        → P (ok (keep (os calls call).0, call ∷ calls, some (os calls call).1)))
    → (fails (os calls call).0 ≡ false → P (next (keep (os calls call).0) (call ∷ calls)))
    → P (
        ((λ (h : Object). attempt os fails call keep) followed_by next)
          (keep (os calls call).0)
          calls)
attempt_cases P os fails call keep calls next bad good =
    elim (Bool-cases (fails (os calls call).0)) [
      | inl failed ↦ rw failed (bad failed)
      | inr passed ↦ rw passed (good passed)
    ]

pub is_negative-is_failure : (call : Call) (n : ℤ) → is_negative n ≡ true → is_failure call n ≡ true
is_negative-is_failure call n h = ground arith
