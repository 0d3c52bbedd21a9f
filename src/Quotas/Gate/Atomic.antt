-- ===== src/Quotas/Gate/Atomic.antt =====
-- src/core/quotas: a mutation takes its quotas together or not at all, over the store in memory.
use mathlib.Core.List.{reverse, reverse-cons, append-nil, append_assoc}
use fastapi_foundation.Base.{
  String, ◌≡◌, refl, sym, ap, ◌∙◌, true, false, List, [], ◌∷◌, ◌++◌, ℤ, pos, ◌+ℤ◌, ◌-ℤ◌, ◌≤ℤ◌,
  int_laws, arith, All, Result, ok, err, AppError, Exec, Result-split, raise, ◌>>◌,
}
use fastapi_foundation.Quotas.Usage.{Usage, used, memory_usage_store}
use fastapi_foundation.Quotas.Service.{QuotaDecision, QuotaService, release}
use fastapi_foundation.Quotas.Gate.{
  QuotaReservation, QuotaMutationResult, release_all, release_reversed, reserve_all, run_handler,
  run_mutation,
}
use fastapi_foundation.Quotas.Gate.Charges.{
  MemoryService, cost, total, IsGranted, cost_nonneg, add_zero, outcome, refused_usage, granted,
  release_granted, released,
}

abbrev AllGranted : List QuotaReservation → Type 0
AllGranted = All IsGranted

total_nonneg : (k : String) (rs : List QuotaReservation) → AllGranted rs → pos 0 ≤ℤ total k rs
unfolding total
total_nonneg k [] g = omega arith
total_nonneg k (r ∷ rs) g = omega (int_laws, cost_nonneg k r g.0, total_nonneg k rs g.1)

release_all_done :
    (rs : List QuotaReservation) (q : MemoryService)
    → AllGranted rs
    → ((k : String) → total k rs ≤ℤ used k q.usage)
    → ((release_all memory_usage_store rs q).0 ≡ ok tt)
      × ((k : String)
          → used k (release_all memory_usage_store rs q).1.usage ≡ used k q.usage -ℤ total k rs)
unfolding release_all total
release_all_done [] q g enough = (refl, λ k. omega int_laws)
release_all_done (r ∷ rs) q g enough =
    let q' = (release memory_usage_store r.rule r.subject r.amount q).1 in
    let step : (k : String) → used k q'.usage ≡ used k q.usage -ℤ cost k r =
      λ k. released r q g.0 k (omega (int_laws, total_nonneg k rs g.1, enough k)) in
    let (done, usage) =
      release_all_done rs q' g.1 (λ k. rw (step k) (omega (int_laws, enough k))) in
    (
      ground (arith, release_granted r q g.0, done),
      λ k. then_usage k (usage k ∙ rw (step k) (omega int_laws)),
    )
  where
    then_usage :
        (k : String)
        → used k
            (release_all memory_usage_store rs
              (release memory_usage_store r.rule r.subject r.amount q).1).1.usage
          ≡ used k q.usage -ℤ (cost k r +ℤ total k rs)
        → used k (release_all memory_usage_store (r ∷ rs) q).1.usage
          ≡ used k q.usage -ℤ (cost k r +ℤ total k rs)
    then_usage k h = ground (arith, release_granted r q g.0, h)

total-append :
    (k : String) (rs ss : List QuotaReservation) → total k (rs ++ ss) ≡ total k rs +ℤ total k ss
unfolding total
total-append k [] ss = omega int_laws
total-append k (r ∷ rs) ss = rw (total-append k rs ss) (omega int_laws)

All-append : (rs ss : List QuotaReservation) → AllGranted rs → AllGranted ss → AllGranted (rs ++ ss)
All-append [] ss g h = h
All-append (r ∷ rs) ss g h = (g.0, All-append rs ss g.1 h)

total-reverse : (k : String) (rs : List QuotaReservation) → total k (reverse rs) ≡ total k rs
total-reverse k [] = refl
total-reverse k (r ∷ rs) =
    rw (reverse-cons r rs, total-append k (reverse rs) (r ∷ []))
      (rw (total-reverse k rs) (unfold total in omega int_laws))

All-reverse : (rs : List QuotaReservation) → AllGranted rs → AllGranted (reverse rs)
All-reverse [] g = tt
All-reverse (r ∷ rs) g =
    rw (reverse-cons r rs) (All-append (reverse rs) (r ∷ []) (All-reverse rs g.1) (g.0, tt))

-- After a mutation that gave back what it held.
release_reversed_done :
    (rs : List QuotaReservation) (base : String → ℤ) (q : MemoryService)
    → AllGranted rs
    → ((k : String) → pos 0 ≤ℤ base k)
    → ((k : String) → used k q.usage ≡ base k +ℤ total k rs)
    → ((release_reversed memory_usage_store rs q).0 ≡ ok tt)
      × ((k : String) → used k (release_reversed memory_usage_store rs q).1.usage ≡ base k)
unfolding release_reversed
release_reversed_done rs base q g nonneg held =
    let (done, usage) =
      release_all_done (reverse rs) q (All-reverse rs g)
        (λ k. rw (total-reverse k rs, held k) (omega (int_laws, nonneg k))) in
    (done, λ k. usage k ∙ rw (total-reverse k rs, held k) (omega int_laws))

-- What the reservations of a mutation have done to the quotas: all of them, or none.
abbrev pub Settled :
    {T : Type 0} → List QuotaReservation → MemoryService → Result T × MemoryService → Type 0
Settled rs q (ok _, q') = (k : String) → used k q'.usage ≡ used k q.usage +ℤ total k rs
Settled rs q (err _, q') = (k : String) → used k q'.usage ≡ used k q.usage

module _ (start : MemoryService) (nonneg : (k : String) → pos 0 ≤ℤ used k start.usage) where
  -- What the loop leaves: everything reserved, or nothing.
  Reserved :
      List QuotaReservation
      → Result (List QuotaReservation × List QuotaDecision) × MemoryService
      → Type 0
  Reserved all (ok (done, _), q) =
      (done ≡ all)
      × AllGranted done
      × ((k : String) → used k q.usage ≡ used k start.usage +ℤ total k done)
  Reserved all (err _, q) = (k : String) → used k q.usage ≡ used k start.usage

  reserve_all-Reserved :
      (rs done : List QuotaReservation) (decisions : List QuotaDecision) (q : MemoryService)
      → AllGranted done
      → ((k : String) → used k q.usage ≡ used k start.usage +ℤ total k done)
      → Reserved (done ++ rs) (reserve_all memory_usage_store rs done decisions q)
  unfolding reserve_all Reserved
  reserve_all-Reserved [] done decisions q g held = rw append-nil (refl, g, held)
  reserve_all-Reserved (r ∷ rs) done decisions q g held =
      Result-split (Reserved (done ++ r ∷ rs)) (outcome r q).0
        (λ d.
          reserve_all memory_usage_store rs (done ++ r ∷ []) (decisions ++ d ∷ []) (outcome r q).1)
        (λ e. (release_reversed memory_usage_store done >> raise e) (outcome r q).1)
        (λ d allowed. rw (append_assoc done (r ∷ []) rs) at (
          reserve_all-Reserved rs (done ++ r ∷ []) (decisions ++ d ∷ []) (outcome r q).1
            (All-append done (r ∷ []) g ((granted r q d allowed).0, tt))
            (λ k. charged_too k ((granted r q d allowed).1 k))))
        undone
    where
      charged_too :
          (k : String)
          → used k (outcome r q).1.usage ≡ used k q.usage +ℤ cost k r
          → used k (outcome r q).1.usage ≡ used k start.usage +ℤ total k (done ++ r ∷ [])
      charged_too k charged =
          rw (charged, held k, total-append k done (r ∷ [])) (unfold total in omega int_laws)

      undone :
          (e : AppError)
          → (outcome r q).0 ≡ err e
          → Reserved
              (done ++ r ∷ rs)
              ((release_reversed memory_usage_store done >> raise e) (outcome r q).1)
      undone e refused =
          let usage =
            (release_reversed_done done (λ k. used k start.usage) (outcome r q).1 g nonneg
              (λ k. rw (refused_usage r q e refused) (held k))).1 in
          Result-split (Reserved (done ++ r ∷ rs))
            (release_reversed memory_usage_store done (outcome r q).1).0
            (λ _. (err e, (release_reversed memory_usage_store done (outcome r q).1).1))
            (λ x. (err x, (release_reversed memory_usage_store done (outcome r q).1).1))
            (λ _ _. usage) (λ _ _. usage)

run_handler-Settled :
    {T : Type 0} (rs done : List QuotaReservation) (decisions : List QuotaDecision)
    (handler : Exec MemoryService T) (start q : MemoryService)
    → done ≡ rs
    → AllGranted done
    → ((k : String) → pos 0 ≤ℤ used k start.usage)
    → ((k : String) → used k q.usage ≡ used k start.usage +ℤ total k done)
    → ((p : MemoryService) (k : String) → used k (handler p).1.usage ≡ used k p.usage)
    → Settled rs start (run_handler memory_usage_store rs handler true false (done, decisions) q)
unfolding run_handler
run_handler-Settled {T} rs done decisions handler start q all_of g nonneg held apart =
    Result-split (Settled rs start) (handler q).0
      (λ v. (ok (record { value = v; reservations = rs; decisions = decisions }), (handler q).1))
      (λ e. (release_reversed memory_usage_store done >> raise e) (handler q).1)
      (λ v _ k. apart q k ∙ (held k ∙ ap (λ ds. used k start.usage +ℤ total k ds) all_of))
      (λ e _.
        let usage =
          (release_reversed_done done (λ k. used k start.usage) (handler q).1 g nonneg
            (λ k. apart q k ∙ held k)).1 in
        Result-split (Settled {T = QuotaMutationResult T} rs start)
          (release_reversed memory_usage_store done (handler q).1).0
          (λ _. (err e, (release_reversed memory_usage_store done (handler q).1).1))
          (λ x. (err x, (release_reversed memory_usage_store done (handler q).1).1)) (λ _ _. usage)
          (λ _ _. usage))

-- Over the store in memory, where no usage is negative, a mutation that leaves the quotas alone
-- takes all of its reservations if it returns; whatever raises, a quota that is exceeded or the
-- mutation itself, every quota is as it was before.
pub run_mutation-Settled :
    {T : Type 0} (rs : List QuotaReservation) (handler : Exec (QuotaService Usage) T)
    (q : QuotaService Usage)
    → ((k : String) → pos 0 ≤ℤ used k q.usage)
    → ((p : QuotaService Usage) (k : String) → used k (handler p).1.usage ≡ used k p.usage)
    → Settled rs q (run_mutation memory_usage_store rs handler q)
unfolding run_mutation Reserved total
run_mutation-Settled {T} rs handler q nonneg apart =
    go (reserve_all memory_usage_store rs [] [] q)
      (reserve_all-Reserved q nonneg rs [] [] q tt (λ k. sym (add_zero (used k q.usage))))
  where
    go :
        (o : Result (List QuotaReservation × List QuotaDecision) × MemoryService)
        → Reserved q nonneg rs o
        → Settled {T = QuotaMutationResult T} rs q (elim o.0 [
          | ok a ↦ run_handler memory_usage_store rs handler true false a o.1
          | err e ↦ (err e, o.1)
        ])
    go (err e, q') h = h
    go (ok (done, decisions), q') (all_of, g, held) =
        run_handler-Settled rs done decisions handler q q' all_of g nonneg held apart
