-- ===== src/Startup/Keeps.antt =====
-- Parts of an initialisation that leave the configuration of their object alone, and how they are put together.
use nrp_reference.Base.{
  ℕ, ◌≡◌, sym, ap, ◌∙◌, inl, inr, Bool, List, Option, none, some, ok, ◌>>=◌, >>=-eq-ok, Bool-cases,
  if◌then◌else◌,
}
use nrp_reference.Base.Int.{ℤ}
use nrp_reference.Config.State.{Config}
use nrp_reference.Startup.{Call, System, Setup, ◌followed_by◌, attempt, read_descriptor}

module _ {Object : Type 0} (get : Object → Config) where
  -- A part of an initialisation leaves the configuration of its object alone.
  unfoldable pub Keeps : Setup Object → Type 0
  Keeps setup =
      (object object' : Object) (calls calls' : List Call) (error : Option ℕ)
      → setup object calls ≡ ok (object', calls', error)
      → get object' ≡ get object

  pub followed_by-Keeps :
      (first second : Setup Object) → Keeps first → Keeps second → Keeps (first followed_by second)
  unfolding Keeps
  followed_by-Keeps first second kept kept' object object' calls calls' error h =
      let ((between, calls₁, error₁), made, rest) = >>=-eq-ok (first object calls) _ h in
      after between calls₁ error₁ made rest
    where
      after :
          (between : Object) (calls₁ : List Call) (error₁ : Option ℕ)
          → first object calls ≡ ok (between, calls₁, error₁)
          → elim error₁ [
            | none ↦ second between calls₁
            | some code ↦ ok (between, calls₁, some code)
          ]
            ≡ ok (object', calls', error)
          → get object' ≡ get object
      after between calls₁ none made rest =
          kept' between object' calls₁ calls' error rest
          ∙ kept object between calls calls₁ none made
      after between calls₁ (some code) made rest =
          let same : between ≡ object' = cc in
          ap get (sym same) ∙ kept object between calls calls₁ (some code) made

  pub attempt-Keeps :
      (os : System) (fails : ℤ → Bool) (call : Call) (keep : Object → ℤ → Object)
      → ((object : Object) (answer : ℤ) → get (keep object answer) ≡ get object)
      → Keeps (λ object. attempt os fails call (keep object))
  unfolding Keeps
  attempt-Keeps os fails call keep same object object' calls calls' error h =
      let kept : keep object (os calls call).0 ≡ object' = cc in
      ap get (sym kept) ∙ same object (os calls call).0

  pub reading-Keeps :
      (descriptor : Object → Option ℤ) (next : ℤ → Setup Object)
      → ((fd : ℤ) → Keeps (next fd))
      → Keeps (λ object calls. read_descriptor (descriptor object) >>= λ fd. next fd object calls)
  unfolding Keeps
  reading-Keeps descriptor next kept object object' calls calls' error h =
      let (fd, read, rest) = >>=-eq-ok (read_descriptor (descriptor object)) _ h in
      kept fd object object' calls calls' error rest

  pub skip-Keeps :
      (change : Object → Object)
      → ((object : Object) → get (change object) ≡ get object)
      → Keeps (λ object calls. ok (change object, calls, none))
  unfolding Keeps
  skip-Keeps change same object object' calls calls' error h =
      let kept : change object ≡ object' = cc in ap get (sym kept) ∙ same object

  pub choice-Keeps :
      (test : Object → Bool) (first second : Setup Object)
      → Keeps first
      → Keeps second
      → Keeps (λ object calls. if test object then first object calls else second object calls)
  unfolding Keeps
  choice-Keeps test first second kept kept' object object' calls calls' error h =
      elim (Bool-cases (test object)) [
        | inl taken ↦ kept object object' calls calls' error (simp taken at h)
        | inr not_taken ↦ kept' object object' calls calls' error (simp not_taken at h)
      ]
