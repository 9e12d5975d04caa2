-- ===== src/Coordination/Aggregation.antt =====
-- When the parent's work is ready (`aggregate` of
-- projects/ai-agent/src/multi_agent_coordination.py).
use ai_backend_engineer_hand.Prelude.{
  String, ◌≡◌, refl, ◌↔◌, ◌≤◌, Bool, true, false, not, ◌&&◌, ◌||◌, List, [], ◌∷◌, inl, inr,
  Bool-cases, ◌==◌, string_eq, nat_eq, Dict, arith,
}
use ai_backend_engineer_hand.Coordination.Types.{
  handoff_state_eq, ready, ResultEvidence, HandoffRecord, CoordinationStore,
}
use ai_backend_engineer_hand.Coordination.Outcomes.{
  count_records, contradicts, has_conflict, is_verified_record, aggregate,
}

-- An applied result states this value of the fact.
unfoldable pub is_fact : (key value : String) → List ResultEvidence → Bool
is_fact key value [] = false
is_fact key value (e ∷ evidence) =
    (e.applied_to_current_state && e.candidate.fact_key == key && e.candidate.fact_value == value)
    || is_fact key value evidence

-- Every record is verified.
unfoldable pub all_verified : Dict HandoffRecord → Bool
all_verified [] = true
all_verified ((id, r) ∷ records) = is_verified_record r && all_verified records

contradicts-to :
    (key value w : String) (evidence : List ResultEvidence)
    → contradicts key value evidence ≡ false
    → is_fact key w evidence ≡ true
    → w ≡ value
unfolding contradicts is_fact
contradicts-to key value w [] h f = cc
contradicts-to key value w (e ∷ evidence) h f = ground (arith, contradicts-to key value w evidence)

contradicts-of :
    (key value : String) (evidence : List ResultEvidence)
    → ((w : String) → is_fact key w evidence ≡ true → w ≡ value)
    → contradicts key value evidence ≡ false
unfolding contradicts is_fact
contradicts-of key value [] h = refl
contradicts-of key value (e ∷ evidence) h = ground (
  arith,
  h e.candidate.fact_value,
  contradicts-of key value evidence λ w m. h w (ground (arith, m)),
)

agreement-to :
    (evidence : List ResultEvidence) (key v w : String)
    → has_conflict evidence ≡ false
    → is_fact key v evidence ≡ true
    → is_fact key w evidence ≡ true
    → v ≡ w
unfolding has_conflict is_fact
agreement-to [] key v w h f g = cc
agreement-to (e ∷ evidence) key v w h f g = ground (
  arith,
  agreement-to evidence key v w,
  contradicts-to key e.candidate.fact_value v evidence,
  contradicts-to key e.candidate.fact_value w evidence,
)

agreement-of :
    (evidence : List ResultEvidence)
    → ((key v w : String) → is_fact key v evidence ≡ true → is_fact key w evidence ≡ true → v ≡ w)
    → has_conflict evidence ≡ false
unfolding has_conflict is_fact
agreement-of [] h = refl
agreement-of (e ∷ evidence) h = elim (Bool-cases e.applied_to_current_state) [
  | inl a ↦ ground (
    arith,
    agreement-of evidence λ key v w f g. h key v w (ground (arith, f)) (ground (arith, g)),
    contradicts-of e.candidate.fact_key e.candidate.fact_value evidence λ w f.
        h e.candidate.fact_key w e.candidate.fact_value (ground (arith, f)) (ground (arith, a)),
  )
  | inr a ↦ ground (
    arith,
    agreement-of evidence λ key v w f g. h key v w (ground (arith, f)) (ground (arith, g)),
  )
]

count-le :
    (records : Dict HandoffRecord) (p : HandoffRecord → Bool)
    → count_records (λ r. p r && is_verified_record r) records ≤ count_records p records
unfolding count_records
count-le [] p = omega arith
count-le ((id, r) ∷ records) p = ground (arith, count-le records p)

counts-all :
    (records : Dict HandoffRecord)
    → let required = λ (r : HandoffRecord). r.candidate.required in
      let optional = λ (r : HandoffRecord). not r.candidate.required in
      ((count_records (λ r. required r && is_verified_record r) records
          ≡ count_records required records)
        × (count_records (λ r. optional r && is_verified_record r) records
            ≡ count_records optional records))
      ↔ (all_verified records ≡ true)
unfolding count_records all_verified
counts-all [] = (λ h. refl, λ h. (refl, refl))
counts-all ((id, r) ∷ records) = ground (
  arith,
  counts-all records,
  count-le records (λ r. r.candidate.required),
  count-le records (λ r. not r.candidate.required),
)

-- The aggregation is ready exactly if the parent has not ended, every handoff is verified, and no
-- two applied results give different values to one fact.
pub aggregate-ready_iff :
    (s : CoordinationStore)
    → ((aggregate s).status ≡ ready) ↔ (
        (s.parent_terminal ≡ false)
        × (all_verified s.records ≡ true)
        × ((key v w : String)
            → is_fact key v s.result_evidence ≡ true
            → is_fact key w s.result_evidence ≡ true
            → v ≡ w))
unfolding aggregate
aggregate-ready_iff s =
    let counted = counts-all s.records in
    (
      λ h. (
        ground (arith, h),
        ground (arith, h, counted),
        λ key v w. agreement-to s.result_evidence key v w (ground (arith, h)),
      ),
      λ (going, all, agree).
          ground (arith, going, all, counted, agreement-of s.result_evidence agree),
    )
