-- ===== src/Topological/Visits.antt =====
-- The walk of `visit` as a relation, without fuel: src/core/apps/dependencies.py and
-- src/core/migrations/planner.py.
use fastapi_foundation.Base.{
  ℕ, zero, suc, String, ◌≡◌, refl, sym, ◌∙◌, true, false, none, some, List, [], ◌∷◌, arith,
  Bool-cases, Option-cases, inl, inr,
}
use fastapi_foundation.Topological.{is_in, Walk, enter, leave, report_cycle, visit_all}

module _ {E : Type 0} (dependencies : String → List String) (report : List String → E → E) where
  -- The calls of `visit` on the labels lead from one state of the walk to another.
  pub data Visits : List String → Walk E → Walk E → Type 0 where
    done : {w : Walk E} → Visits [] w w
    seen :
        {l : String} {ls : List String} {w w' : Walk E}
        → is_in l w.visited ≡ true
        → Visits ls w w'
        → Visits (l ∷ ls) w w'
    looped :
        {l : String} {ls : List String} {w w' : Walk E}
        → is_in l w.visiting ≡ true
        → Visits ls (report_cycle dependencies report l w) w'
        → Visits (l ∷ ls) w w'
    entered :
        {l : String} {ls : List String} {w v w' : Walk E}
        → is_in l w.visited ≡ false
        → is_in l w.visiting ≡ false
        → Visits (dependencies l) (enter l w) v
        → Visits ls (leave l v) w'
        → Visits (l ∷ ls) w w'

  pub step_seen :
      (n : ℕ) (l : String) (ls : List String) (w : Walk E)
      → is_in l w.visited ≡ true
      → visit_all dependencies report n (l ∷ ls) w ≡ visit_all dependencies report n ls w
  unfolding visit_all
  step_seen zero l ls w h = rw h refl
  step_seen (suc n) l ls w h = rw h refl

  pub step_looped :
      (n : ℕ) (l : String) (ls : List String) (w : Walk E)
      → is_in l w.visited ≡ false
      → is_in l w.visiting ≡ true
      → visit_all dependencies report n (l ∷ ls) w
        ≡ visit_all dependencies report n ls (report_cycle dependencies report l w)
  unfolding visit_all
  step_looped zero l ls w h k = rw (h, k) refl
  step_looped (suc n) l ls w h k = rw (h, k) refl

  pub step_entered :
      (n : ℕ) (l : String) (ls : List String) (w v : Walk E)
      → is_in l w.visited ≡ false
      → is_in l w.visiting ≡ false
      → visit_all dependencies report n (dependencies l) (enter l w) ≡ some v
      → visit_all dependencies report (suc n) (l ∷ ls) w
        ≡ visit_all dependencies report (suc n) ls (leave l v)
  unfolding visit_all
  step_entered n l ls w v h k inner = rw (h, k, inner) refl

  step_failed :
      (n : ℕ) (l : String) (ls : List String) (w : Walk E)
      → is_in l w.visited ≡ false
      → is_in l w.visiting ≡ false
      → visit_all dependencies report n (dependencies l) (enter l w) ≡ none
      → visit_all dependencies report (suc n) (l ∷ ls) w ≡ none
  unfolding visit_all
  step_failed n l ls w h k inner = rw (h, k, inner) refl

  step_zero :
      (l : String) (ls : List String) (w : Walk E)
      → is_in l w.visited ≡ false
      → is_in l w.visiting ≡ false
      → visit_all dependencies report zero (l ∷ ls) w ≡ none
  unfolding visit_all
  step_zero l ls w h k = rw (h, k) refl

  pub visit_nil : (n : ℕ) (w : Walk E) → visit_all dependencies report n [] w ≡ some w
  unfolding visit_all
  visit_nil zero w = refl
  visit_nil (suc n) w = refl

  -- What the walk on fuel returns is reached without it.
  pub visit_all-Visits :
      (n : ℕ) (ls : List String) (w w' : Walk E)
      → visit_all dependencies report n ls w ≡ some w'
      → Visits ls w w'
  visit_all-Visits n [] w w' h =
      let same : w ≡ w' = ground (arith, visit_nil n w, h) in rw same Visits.done
  visit_all-Visits zero (l ∷ ls) w w' h = elim (Bool-cases (is_in l w.visited)) [
    | inl old ↦
        Visits.seen old (visit_all-Visits zero ls w w' (sym (step_seen zero l ls w old) ∙ h))
    | inr new ↦ elim (Bool-cases (is_in l w.visiting)) [
      | inl open_ ↦ Visits.looped open_ (
          visit_all-Visits zero ls (report_cycle dependencies report l w) w'
            (sym (step_looped zero l ls w new open_) ∙ h))
      | inr fresh ↦ absurd (ground (arith, step_zero l ls w new fresh, h))
    ]
  ]
  visit_all-Visits (suc n) (l ∷ ls) w w' h = elim (Bool-cases (is_in l w.visited)) [
    | inl old ↦
        Visits.seen old (visit_all-Visits (suc n) ls w w' (sym (step_seen (suc n) l ls w old) ∙ h))
    | inr new ↦ elim (Bool-cases (is_in l w.visiting)) [
      | inl open_ ↦ Visits.looped open_ (
          visit_all-Visits (suc n) ls (report_cycle dependencies report l w) w'
            (sym (step_looped (suc n) l ls w new open_) ∙ h))
      | inr fresh ↦
          elim (Option-cases (visit_all dependencies report n (dependencies l) (enter l w))) [
            | inl failed ↦ absurd (ground (arith, step_failed n l ls w new fresh failed, h))
            | inr (v, inner) ↦
                Visits.entered new fresh (visit_all-Visits n (dependencies l) (enter l w) v inner) (
                  visit_all-Visits (suc n) ls (leave l v) w'
                    (sym (step_entered n l ls w v new fresh inner) ∙ h))
          ]
    ]
  ]
