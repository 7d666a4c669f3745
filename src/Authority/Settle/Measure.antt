-- ===== src/Authority/Settle/Measure.antt =====
-- How much of a universe an authority has, and what a merge does to it.
use thorax.Prelude.{
  ℕ, ◌+◌, ◌≤◌, ◌<◌, ◌≡◌, true, false, arith, Memᴰ, inl, inr, length, if◌then◌else◌,
}
use thorax.Format.Selector.{KeyspaceSelectorV1, ManageKeyspaceGrantV1, selector_eq, manage_eq}
use thorax.Authz.{AuthoritySet, no_authority, push_all, merge_from}
use thorax.Authority.Count.{held, held-le, push_all-held, Memᴰ-push_all}

-- All that an authority holds is in the universe.
pub record Within (u a : AuthoritySet) : Type 0 where
  pub reads : (k : KeyspaceSelectorV1) → Memᴰ k a.read → Memᴰ k u.read
  pub writes : (k : KeyspaceSelectorV1) → Memᴰ k a.write → Memᴰ k u.write
  pub manages : (t : ManageKeyspaceGrantV1) → Memᴰ t a.manage → Memᴰ t u.manage

unfoldable pub amount : AuthoritySet → AuthoritySet → ℕ
amount u a =
    held u.read a.read
    + held u.write a.write
    + held u.manage a.manage
    + (if a.administer then 1 else 0)

abbrev pub ceiling : AuthoritySet → ℕ
ceiling u = length u.read + length u.write + length u.manage + 1

pub amount-le : (u a : AuthoritySet) → amount u a ≤ ceiling u
unfolding amount
amount-le u a =
    ground (arith, held-le u.read a.read, held-le u.write a.write, held-le u.manage a.manage)

pub Within-no_authority : (u : AuthoritySet) → Within u no_authority
unfolding no_authority
Within-no_authority u = record {
  reads = λ k m. elim m [ ];
  writes = λ k m. elim m [ ];
  manages = λ t m. elim m [ ];
}

pub Within-merge_from :
    (u a b : AuthoritySet) → Within u a → Within u b → Within u (merge_from a b).0
unfolding merge_from
Within-merge_from u a b wa wb =
    let c1 = (push_all (a.read, false) b.read).1 in
    let c2 = (push_all (a.write, c1) b.write).1 in
    record {
      reads = λ k m. elim (Memᴰ-push_all a.read false b.read k m) [
        | inl l ↦ wa.reads k l
        | inr r ↦ wb.reads k r
      ];
      writes = λ k m. elim (Memᴰ-push_all a.write c1 b.write k m) [
        | inl l ↦ wa.writes k l
        | inr r ↦ wb.writes k r
      ];
      manages = λ t m. elim (Memᴰ-push_all a.manage c2 b.manage t m) [
        | inl l ↦ wa.manages t l
        | inr r ↦ wb.manages t r
      ];
    }

pub merge_from-amount :
    (u a b : AuthoritySet)
    → Within u b
    → (amount u a ≤ amount u (merge_from a b).0)
      × ((merge_from a b).1 ≡ true → amount u a < amount u (merge_from a b).0)
unfolding amount merge_from
merge_from-amount u a b w =
    let c1 = (push_all (a.read, false) b.read).1 in
    let c2 = (push_all (a.write, c1) b.write).1 in
    let r = push_all-held u.read a.read false b.read w.reads in
    let v = push_all-held u.write a.write c1 b.write w.writes in
    let m = push_all-held u.manage a.manage c2 b.manage w.manages in
    (ground (arith, r.0, v.0, m.0), λ f. ground (arith, r, v, m))
