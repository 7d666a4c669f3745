-- ===== src/Effective/Settled.antt =====
-- When the loop over selections and authorities ends by its test, each is computed from the other.
use thorax.Prelude.{
  ℕ, zero, suc, ◌≡◌, sym, ap, ◌∙◌, true, false, ◌&&◌, &&-elim, Bool-cases, inl, inr, List, arith,
  ◌==◌, eq_of_==, Option,
}
use thorax.Prelude.Map.{BTreeMap, BTreeSet}
use thorax.Format.Selector.{Bytes}
use thorax.Format.Key.{HashValue, RecordKey}
use thorax.Format.Body.{VaultRecordV1, UserRecordV1}
use thorax.Lww.{VerifiedRecord}
use thorax.Authority.{Authorities, compute_authorities_from_selected}
use thorax.Effective.Select.{SelectedAuthorizedRecords, nothing_selected, selected_eq}
use thorax.Effective.State.{
  EffectiveState, Convergence, authorities_eq, next_selected, next_authorities, converge, converged,
  compute_effective_state,
}

module _ (records : List VerifiedRecord) (root_user_record : UserRecordV1)
    (admitted_deletions : BTreeSet HashValue) (rollback_keys : BTreeMap RecordKey ℕ) where
  abbrev pub selects : Authorities → SelectedAuthorizedRecords
  selects = next_selected records root_user_record admitted_deletions rollback_keys

  abbrev authorizes : SelectedAuthorizedRecords → Authorities
  authorizes = next_authorities records root_user_record admitted_deletions rollback_keys

  -- If the loop ended by its test, the selection and the authorities give each other.
  abbrev Fixed : Convergence → Type 0
  Fixed c =
      c.authority_converged ≡ true
      → (selects c.authorities ≡ c.selected) × (authorizes c.selected ≡ c.authorities)

  converge-Fixed :
      (left : ℕ) (s : SelectedAuthorizedRecords) (a : Authorities)
      → Fixed (converge records root_user_record admitted_deletions rollback_keys left s a)
  unfolding converge
  converge-Fixed zero s a = λ h. cc
  converge-Fixed (suc left) s a =
      let next = selects a in
      elim (Bool-cases (next == s && authorities_eq.beq (authorizes next) a)) [
        | inl on ↦
            let (p, q) = &&-elim _ _ on in
            let e = eq_of_== next s p in
            rw (on, converge) (λ h. (e, ap authorizes (sym e) ∙ (authorities_eq.beq_iff _ a).0 q))
        | inr off ↦ rw (off, converge) (converge-Fixed left next (authorizes next))
      ]

  -- The principals of a state are those selected under its authorities, and its authorities are those
  -- of its memberships and grants.
  abbrev pub Consistent : EffectiveState → Type 0
  Consistent st =
      ((selects st.authorities).users ≡ st.users)
      × ((selects st.authorities).groups ≡ st.groups)
      × ((selects st.authorities).memberships ≡ st.memberships)
      × ((selects st.authorities).grants ≡ st.grants)
      × (compute_authorities_from_selected root_user_record.id st.memberships st.grants
          ≡ st.authorities)

  -- If the effective state is not flagged as unresolved, then its users, groups, memberships and
  -- grants are those selected under its own authorities, and its authorities are those computed
  -- from its memberships and grants.
  pub compute_effective_state-Consistent :
      (serialize : VaultRecordV1 → Option Bytes) (root_hash : HashValue)
      → (compute_effective_state serialize root_user_record root_hash records admitted_deletions
          rollback_keys).authority_unresolved
        ≡ false
      → Consistent (
          compute_effective_state serialize root_user_record root_hash records admitted_deletions
            rollback_keys)
  unfolding compute_effective_state converged
  compute_effective_state-Consistent serialize root_hash u =
      let (s, a) = converge-Fixed 64 nothing_selected _ (ground arith) in
      (
        ap (λ (s : SelectedAuthorizedRecords). s.users) s,
        ap (λ (s : SelectedAuthorizedRecords). s.groups) s,
        ap (λ (s : SelectedAuthorizedRecords). s.memberships) s,
        ap (λ (s : SelectedAuthorizedRecords). s.grants) s,
        a,
      )
