-- ===== src/Authority/Settle/Round.antt =====
-- One round over the memberships.
use thorax.Prelude.{
  ◌≤◌, ◌<◌, ◌≡◌, ◌≢◌, refl, sym, ap, ap₂, ◌∙◌, subst, ||-elim, Memᴰ-cons_elim, Bool, true, false,
  List, [], ◌∷◌, Option, none, some, arith, Memᴰ, ◌⊎◌, inl, inr, ord_discrete,
}
use thorax.Prelude.Map.{get, get_or, get-update_self, get-update_ne}
use thorax.Format.Key.{PrincipalRefV1, principal_ord}
use thorax.Format.Body.{GroupMemberRecordV1}
use thorax.Authz.{AuthoritySet, no_authority, push_all, merge_from}
use thorax.Authz.Grow.{merge_from-changed}
use thorax.Authority.{Authorities, authority_of, merge_into, inherit_from, inherit, inherit_all}
use thorax.Authority.Settle.Measure.{Within, amount, Within-merge_from, merge_from-amount}

abbrev pub group_of : GroupMemberRecordV1 → PrincipalRefV1
group_of m = PrincipalRefV1.group m.group_id

pub authority-merge_into_self :
    (s : Authorities) (k : PrincipalRefV1) (g : AuthoritySet)
    → authority_of (merge_into s k g) k ≡ (merge_from (authority_of s k) g).0
unfolding merge_into
authority-merge_into_self s k g =
    ap (λ o. get_or o no_authority)
      (get-update_self k (λ old. (merge_from (get_or old no_authority) g).0) s)

pub authority-merge_into_ne :
    (s : Authorities) (k j : PrincipalRefV1) (g : AuthoritySet)
    → k ≢ j
    → authority_of (merge_into s j g) k ≡ authority_of s k
unfolding merge_into
authority-merge_into_ne s k j g n =
    ap (λ o. get_or o no_authority)
      (get-update_ne k j (λ old. (merge_from (get_or old no_authority) g).0) s n)

-- What holds at the member after a merge, and elsewhere before it, holds everywhere after it.
pub merge_into-elim :
    (P : PrincipalRefV1 → AuthoritySet → Type 0)
    → (s : Authorities) (j : PrincipalRefV1) (g : AuthoritySet)
    → P j (merge_from (authority_of s j) g).0
    → ((k : PrincipalRefV1) → P k (authority_of s k))
    → (k : PrincipalRefV1) → P k (authority_of (merge_into s j g) k)
merge_into-elim P s j g here there k = elim (ord_discrete k j) [
  | yes e ↦
      subst (λ k. P k (authority_of (merge_into s j g) k)) (sym e)
        (subst (P j) (sym (authority-merge_into_self s j g)) here)
  | no n ↦ subst (P k) (sym (authority-merge_into_ne s k j g n)) (there k)
]

abbrev pub AllWithin : AuthoritySet → Authorities → Type 0
AllWithin u s = (k : PrincipalRefV1) → Within u (authority_of s k)

abbrev pub Grows : AuthoritySet → Authorities → Authorities → Type 0
Grows u s t = (k : PrincipalRefV1) → amount u (authority_of s k) ≤ amount u (authority_of t k)

-- What a step does, in terms of what principals hold.
record Stepped (u : AuthoritySet) (s : Authorities) (c : Bool) (j : PrincipalRefV1)
    (g : AuthoritySet) (t : Authorities × Bool) : Type 0 where
  within : AllWithin u t.0
  grows : Grows u s t.0
  set : t.1 ≡ true → (c ≡ true) ⊎ (amount u (authority_of s j) < amount u (authority_of t.0 j))
  unset :
      t.1 ≡ false
      → (c ≡ false)
        × ((k : PrincipalRefV1) → authority_of t.0 k ≡ authority_of s k)
        × ((merge_from (authority_of s j) g).1 ≡ false)

merge_from-nothing : (a : AuthoritySet) → (merge_from a no_authority).1 ≡ false
unfolding merge_from no_authority push_all
merge_from-nothing a = ground arith

Stepped-inherit_from :
    (u : AuthoritySet) (s : Authorities) (c : Bool) (j : PrincipalRefV1) (o : Option AuthoritySet)
    → AllWithin u s
    → Within u (get_or o no_authority)
    → Stepped u s c j (get_or o no_authority) (inherit_from s c j o)
unfolding inherit_from
Stepped-inherit_from u s c j none w v = record {
  within = w;
  grows = λ k. omega arith;
  set = λ f. inl f;
  unset = λ f. (f, λ k. refl, merge_from-nothing (authority_of s j));
}
Stepped-inherit_from u s c j (some g) w v =
    let (le, more) = merge_from-amount u (authority_of s j) g v in
    record {
      within = merge_into-elim (λ k a. Within u a) s j g (Within-merge_from u _ g (w j) v) w;
      grows =
          merge_into-elim (λ k a. amount u (authority_of s k) ≤ amount u a) s j g le
            (λ k. omega arith);
      set = λ f. elim (||-elim _ _ f) [
        | inl on ↦ inl on
        | inr grown ↦ inr (
            subst (λ a. amount u (authority_of s j) < amount u a)
              (sym (authority-merge_into_self s j g)) (more grown))
      ];
      unset = λ f.
          let off : (merge_from (authority_of s j) g).1 ≡ false = ground arith in
          (
            ground arith,
            merge_into-elim (λ k a. a ≡ authority_of s k) s j g
                ((merge_from-changed (authority_of s j) g).0 off) (λ k. refl),
            off,
          );
    }

Stepped-inherit :
    (u : AuthoritySet) (s : Authorities) (c : Bool) (m : GroupMemberRecordV1)
    → AllWithin u s
    → Stepped u s c m.member_id (authority_of s (group_of m)) (inherit (s, c) m)
unfolding inherit
Stepped-inherit u s c m w =
    Stepped-inherit_from u s c m.member_id (get s (group_of m)) w (w (group_of m))

-- Nothing is left for the member to merge.
abbrev pub Settled : Authorities → GroupMemberRecordV1 → Type 0
Settled s m = (merge_from (authority_of s m.member_id) (authority_of s (group_of m))).1 ≡ false

-- What a round does.
pub record Rounded (u : AuthoritySet) (s : Authorities) (c : Bool) (ms : List GroupMemberRecordV1)
    (t : Authorities × Bool) : Type 0 where
  pub within : AllWithin u t.0
  pub grows : Grows u s t.0
  pub set :
      t.1 ≡ true
      → (c ≡ true)
        ⊎ ((m : GroupMemberRecordV1) × Memᴰ m ms
            × (amount u (authority_of s m.member_id) < amount u (authority_of t.0 m.member_id)))
  pub unset :
      t.1 ≡ false
      → (c ≡ false)
        × ((k : PrincipalRefV1) → authority_of t.0 k ≡ authority_of s k)
        × ((m : GroupMemberRecordV1) → Memᴰ m ms → Settled s m)

pub Settled-cong :
    (s t : Authorities) (m : GroupMemberRecordV1)
    → ((k : PrincipalRefV1) → authority_of t k ≡ authority_of s k)
    → Settled t m
    → Settled s m
Settled-cong s t m same h =
    ap₂ (λ a b. (merge_from a b).1) (sym (same m.member_id)) (sym (same (group_of m))) ∙ h

pub Rounded-inherit_all :
    (u : AuthoritySet) (s : Authorities) (c : Bool) (ms : List GroupMemberRecordV1)
    → AllWithin u s
    → Rounded u s c ms (inherit_all (s, c) ms)
unfolding inherit_all
Rounded-inherit_all u s c [] w = record {
  within = w;
  grows = λ k. omega arith;
  set = λ f. inl f;
  unset = λ f. (f, λ k. refl, λ m mm. elim mm [ ]);
}
Rounded-inherit_all u s c (m ∷ ms) w =
    let step = Stepped-inherit u s c m w in
    let t = inherit (s, c) m in
    let rest = Rounded-inherit_all u t.0 t.1 ms step.within in
    record {
      within = rest.within;
      grows = λ k. omega (arith, step.grows k, rest.grows k);
      set = λ f. elim (rest.set f) [
        | inl was ↦ elim (step.set was) [
          | inl on ↦ inl on
          | inr l ↦ inr (m, Memᴰ.head refl, omega (arith, l, rest.grows m.member_id))
        ]
        | inr (n, mem, l) ↦ inr (n, Memᴰ.tail mem, omega (arith, l, step.grows n.member_id))
      ];
      unset = λ f.
          let (off, same, settled) = rest.unset f in
          let (was, kept, here) = step.unset off in
          (
            was,
            λ k. same k ∙ kept k,
            Memᴰ-cons_elim (Settled s) here (λ n mem. Settled-cong s t.0 n kept (settled n mem)),
          );
    }
