-- ===== src/Authority/Examples.antt =====
-- A group that a grant lets read everything, and its member.
use thorax.Prelude.{ℕ, ◌≡◌, ◌↔◌, ◌≤◌, true, [], ◌∷◌, Memᴰ}
use thorax.Prelude.Map.{BTreeMap, values}
use thorax.Format.Selector.{SecretSelectorV1, read_keyspace, keyspace_all, text}
use thorax.Format.Key.{GroupMemberId, GrantId, PrincipalRefV1}
use thorax.Format.Body.{GroupMemberRecordV1, GrantRecordV1}
use thorax.Authz.{can_read, can_write, can_manage}
use thorax.Authz.Grow.{grants_read, grants_write, grants_manage}
use thorax.Authority.{authority_of, spread, granted, rounds, compute_authorities_from_selected}
use thorax.Authority.Settle.{compute_authorities-Settled}
use thorax.Authority.Settle.Round.{Settled}
use thorax.Authority.Powers.{grants_administer}
use thorax.Authority.Sound.{Holds}
use thorax.Authority.Holding.{authorities_iff}

abbrev memberships : BTreeMap GroupMemberId GroupMemberRecordV1
memberships =
    (
      9 ∷ [],
      record {
        id = 9 ∷ [];
        group_id = 5 ∷ [];
        member_id = PrincipalRefV1.user (2 ∷ []);
        counter = 1;
      },
    )
    ∷ []

abbrev grants : BTreeMap GrantId GrantRecordV1
grants =
    (
      7 ∷ [],
      record {
        id = 7 ∷ [];
        seed = [];
        subject_id = PrincipalRefV1.group (5 ∷ []);
        permission = read_keyspace keyspace_all;
        counter = 1;
      },
    )
    ∷ []

abbrev member : PrincipalRefV1
member = PrincipalRefV1.user (2 ∷ [])

abbrev selector : SecretSelectorV1
selector = record { tuple = text "app" ∷ []; labels = [] }

compute_authorities-Settled_example :
    ((m : GroupMemberRecordV1)
      → Memᴰ m (values memberships)
      → Settled (compute_authorities_from_selected (1 ∷ []) memberships grants) m)
    × ((fuel : ℕ)
        → rounds (values memberships) (granted (1 ∷ []) (values grants)) ≤ fuel
        → spread fuel (values memberships) (granted (1 ∷ []) (values grants))
          ≡ compute_authorities_from_selected (1 ∷ []) memberships grants)
compute_authorities-Settled_example = compute_authorities-Settled (1 ∷ []) memberships grants

authorities_iff_example :
    ((can_read
          (authority_of (compute_authorities_from_selected (1 ∷ []) memberships grants) member)
          selector
        ≡ true)
      ↔ Holds (1 ∷ []) (values memberships) (values grants) (grants_read selector) member)
    × ((can_write
            (authority_of (compute_authorities_from_selected (1 ∷ []) memberships grants) member)
            selector
          ≡ true)
        ↔ Holds (1 ∷ []) (values memberships) (values grants) (grants_write selector) member)
    × ((can_manage
            (authority_of (compute_authorities_from_selected (1 ∷ []) memberships grants) member)
            selector
          ≡ true)
        ↔ Holds (1 ∷ []) (values memberships) (values grants) (grants_manage selector) member)
    × (((authority_of
            (compute_authorities_from_selected (1 ∷ []) memberships grants)
            member).administer
          ≡ true)
        ↔ Holds (1 ∷ []) (values memberships) (values grants) grants_administer member)
authorities_iff_example = authorities_iff (1 ∷ []) memberships grants member selector
