-- ===== src/Authority/Settle.antt =====
-- The loop over the memberships ends: each round but the last lets some member hold more of what is
-- held at all.
pub mod Measure
pub mod Round
use thorax.Prelude.{
  ℕ, zero, suc, ◌+◌, ◌*◌, ◌≤◌, ◌<◌, ◌≡◌, refl, sym, ap, ◌∙◌, subst, Bool, true, false, List, [],
  ◌∷◌, ◌++◌, arith, Memᴰ, Bool-cases, inl, inr, length, Memᴰ-cons_elim, Option-cases, bytes_ord,
}
use mathlib.Core.List.Memᴰ
use thorax.Prelude.Map.{BTreeMap, values, get, get_or, Memᴰ_of_get}
use thorax.Format.Key.{UserId, GroupMemberId, GrantId, PrincipalRefV1, principal_ord}
use thorax.Format.Body.{GroupMemberRecordV1, GrantRecordV1}
use thorax.Authz.{AuthoritySet, no_authority}
use thorax.Authority.{
  Authorities, authority_of, inherit_all, spread, compute_authorities_from_selected, all_read,
  all_write, all_manage, capacity, rounds, granted,
}
use thorax.Authority.Settle.Measure.{Within, amount, ceiling, amount-le, Within-no_authority}
use thorax.Authority.Settle.Round.{
  AllWithin, Grows, Settled, Settled-cong, Rounded, Rounded-inherit_all,
}

weight : AuthoritySet → Authorities → List GroupMemberRecordV1 → ℕ
weight u s [] = 0
weight u s (m ∷ ms) = amount u (authority_of s m.member_id) + weight u s ms

weight-le :
    (u : AuthoritySet) (s : Authorities) (ms : List GroupMemberRecordV1)
    → weight u s ms ≤ length ms * ceiling u
unfolding weight
weight-le u s [] = omega arith
weight-le u s (m ∷ ms) = omega (arith, amount-le u (authority_of s m.member_id), weight-le u s ms)

weight_mono :
    (u : AuthoritySet) (s t : Authorities) (ms : List GroupMemberRecordV1)
    → Grows u s t
    → weight u s ms ≤ weight u t ms
unfolding weight
weight_mono u s t [] g = omega arith
weight_mono u s t (m ∷ ms) g = omega (arith, g m.member_id, weight_mono u s t ms g)

weight_strict :
    (u : AuthoritySet) (s t : Authorities) (ms : List GroupMemberRecordV1) (m : GroupMemberRecordV1)
    → Grows u s t
    → Memᴰ m ms
    → amount u (authority_of s m.member_id) < amount u (authority_of t m.member_id)
    → weight u s ms < weight u t ms
unfolding weight
weight_strict u s t [] m g k l = elim k [ ]
weight_strict u s t (n ∷ ms) m g (Memᴰ.head e) l = omega (
  arith,
  weight_mono u s t ms g,
  subst
      (λ (m : GroupMemberRecordV1).
        amount u (authority_of s m.member_id) < amount u (authority_of t m.member_id))
      e l,
)
weight_strict u s t (n ∷ ms) m g (Memᴰ.tail k) l =
    omega (arith, g n.member_id, weight_strict u s t ms m g k l)

spread_more :
    (fuel : ℕ) (ms : List GroupMemberRecordV1) (s : Authorities)
    → (inherit_all (s, false) ms).1 ≡ true
    → spread (suc fuel) ms s ≡ spread fuel ms (inherit_all (s, false) ms).0
unfolding spread
spread_more fuel ms s h = rw (h, spread) refl

spread_last :
    (fuel : ℕ) (ms : List GroupMemberRecordV1) (s : Authorities)
    → (inherit_all (s, false) ms).1 ≡ false
    → spread (suc fuel) ms s ≡ (inherit_all (s, false) ms).0
unfolding spread
spread_last fuel ms s h = rw (h, spread) refl

-- With fuel for what is left to gain, the loop ends with nothing left to merge, and fuel beyond it
-- is not used.
spread_lem :
    (u : AuthoritySet) (ms : List GroupMemberRecordV1) (fuel extra : ℕ) (s : Authorities)
    → AllWithin u s
    → length ms * ceiling u < weight u s ms + fuel
    → fuel ≤ extra
    → ((m : GroupMemberRecordV1) → Memᴰ m ms → Settled (spread fuel ms s) m)
      × (spread extra ms s ≡ spread fuel ms s)
spread_lem u ms zero extra s w l x = absurd (omega (arith, weight-le u s ms))
spread_lem u ms (suc fuel) zero s w l x = absurd (omega arith)
spread_lem u ms (suc fuel) (suc extra) s w l x =
    let t = inherit_all (s, false) ms in
    let r = Rounded-inherit_all u s false ms w in
    elim (Bool-cases t.1) [
      | inl on ↦ elim (r.set on) [
        | inl bad ↦ absurd (ground arith)
        | inr (m, k, grown) ↦
            let (settled, same) =
              spread_lem u ms fuel extra t.0 r.within
                (omega (arith, l, weight_strict u s t.0 ms m r.grows k grown)) (omega arith) in
            (
              subst (λ s. (m : GroupMemberRecordV1) → Memᴰ m ms → Settled s m)
                  (sym (spread_more fuel ms s on)) settled,
              spread_more extra ms s on ∙ same ∙ sym (spread_more fuel ms s on),
            )
      ]
      | inr off ↦
          let (_, same, settled) = r.unset off in
          (
            subst (λ s. (m : GroupMemberRecordV1) → Memᴰ m ms → Settled s m)
                (sym (spread_last fuel ms s off))
                (λ m k. Settled-cong t.0 s m (λ j. sym (same j)) (settled m k)),
            spread_last extra ms s off ∙ sym (spread_last fuel ms s off),
          )
    ]

-- All that anyone holds, as one set.
abbrev universe : Authorities → AuthoritySet
universe s = record {
  read = all_read s;
  write = all_write s;
  manage = all_manage s;
  administer = true;
}

Within-entry :
    (s : Authorities) (k : PrincipalRefV1) (a : AuthoritySet)
    → Memᴰ (k, a) s
    → Within (universe s) a
Within-entry [] k a m = elim m [ ]
Within-entry ((j, b) ∷ s) k a (Memᴰ.head e) =
    subst (λ (p : PrincipalRefV1 × AuthoritySet). Within (universe ((j, b) ∷ s)) p.1) (sym e)
      (record {
        reads = λ x m. Memᴰ.append_left (all_read s) m;
        writes = λ x m. Memᴰ.append_left (all_write s) m;
        manages = λ x m. Memᴰ.append_left (all_manage s) m;
      })
Within-entry ((j, b) ∷ s) k a (Memᴰ.tail n) =
    let rest = Within-entry s k a n in
    record {
      reads = λ x m. Memᴰ.append_right b.read (rest.reads x m);
      writes = λ x m. Memᴰ.append_right b.write (rest.writes x m);
      manages = λ x m. Memᴰ.append_right b.manage (rest.manages x m);
    }

AllWithin-universe : (s : Authorities) → AllWithin (universe s) s
AllWithin-universe s k = elim (Option-cases (get s k)) [
  | inl e ↦
      subst (Within (universe s)) (sym (ap (λ o. get_or o no_authority) e))
        (Within-no_authority (universe s))
  | inr (a, e) ↦
      subst (Within (universe s)) (sym (ap (λ o. get_or o no_authority) e))
        (Within-entry s k a (Memᴰ_of_get k s e))
]

-- The loop that spreads authority from groups to their members ends: with the number of rounds
-- that the model allows no membership has anything left to merge, and more rounds give the same
-- result.
pub compute_authorities-Settled :
    (root_user : UserId) (memberships : BTreeMap GroupMemberId GroupMemberRecordV1)
    (grants : BTreeMap GrantId GrantRecordV1)
    → ((m : GroupMemberRecordV1)
        → Memᴰ m (values memberships)
        → Settled (compute_authorities_from_selected root_user memberships grants) m)
      × ((fuel : ℕ)
          → rounds (values memberships) (granted root_user (values grants)) ≤ fuel
          → spread fuel (values memberships) (granted root_user (values grants))
            ≡ compute_authorities_from_selected root_user memberships grants)
unfolding compute_authorities_from_selected
compute_authorities-Settled root_user memberships grants =
    let s = granted root_user (values grants) in
    let ms = values memberships in
    let go = λ (extra : ℕ) (l : rounds ms s ≤ extra).
      spread_lem (universe s) ms (rounds ms s) extra s (AllWithin-universe s) (omega arith) l in
    ((go (rounds ms s) (omega arith)).0, λ fuel l. (go fuel l).1)
