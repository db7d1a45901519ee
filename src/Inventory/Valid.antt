-- ===== src/Inventory/Valid.antt =====
-- What an accepted aggregate satisfies, read off the loops that check it.
use mandala.Base.{◌≡◌, true, false, Option, none, some, List, [], ◌∷◌, arith, bind}
use mandala.Base.Order.{list_ord, beq_iff}
use mandala.Base.Map.{Map, get, contains_key}
use mandala.Base.Set.{contains}
use mandala.Base.Text.{Text, text}
use mandala.Base.Json.{as_str}
use mandala.Base.Result.{ok}
use mandala.Inventory.Name.{is_valid_member_name, eq_ignore_ascii_case}
use mandala.Inventory.Member.{Member}
use mandala.Inventory.Validate.{
  Aggregate, check_member, check_members, check_group_members, check_groups, check_name,
}

-- The key of a member is a bare host label, and is the name that the member carries.
pub record IsNamed (key : Text) (member : Member) : Type 0 where
  pub label : is_valid_member_name key ≡ true
  pub host_name : bind (get member (text "name")) as_str ≡ some key

pub record IsValid (a : Aggregate) : Type 0 where
  pub named : (key : Text) (member : Member) → get a.members key ≡ some member → IsNamed key member
  pub known :
      (group : Text) (ms : List Text) (m : Text)
      → get a.groups group ≡ some ms
      → contains ms m ≡ true
      → contains_key a.members m ≡ true
  pub unreserved :
      (group : Text) (ms : List Text)
      → get a.groups group ≡ some ms
      → eq_ignore_ascii_case group (text "all") ≡ false

check_name_ok : (key : Text) (found : Option Text) → check_name key found ≡ ok tt → found ≡ some key
check_name_ok key none h = ground arith
check_name_ok key (some name) h = ground (arith, beq_iff name key)

check_member-IsNamed :
    (key : Text) (member : Member) → check_member key member ≡ ok tt → IsNamed key member
unfolding check_member
check_member-IsNamed key member h =
    ground (arith, check_name_ok key (bind (get member (text "name")) as_str))

check_members-IsNamed :
    (ms : Map Text Member) (key : Text) (member : Member)
    → check_members ms ≡ ok tt
    → get ms key ≡ some member
    → IsNamed key member
unfolding check_members get
check_members-IsNamed [] key member h e = absurd (ground arith)
check_members-IsNamed ((k, v) ∷ ms) key member h e =
    ground (arith, check_members-IsNamed ms key member, check_member-IsNamed k v, beq_iff key k)

check_group_members_known :
    (members : Map Text Member) (group : Text) (ms : List Text) (m : Text)
    → check_group_members members group ms ≡ ok tt
    → contains ms m ≡ true
    → contains_key members m ≡ true
unfolding check_group_members contains
check_group_members_known members group [] m h e = absurd (ground arith)
check_group_members_known members group (x ∷ xs) m h e =
    ground (arith, check_group_members_known members group xs m, beq_iff m x)

check_groups_known :
    (members : Map Text Member) (gs : Map Text (List Text)) (group : Text) (ms : List Text)
    → check_groups members gs ≡ ok tt
    → get gs group ≡ some ms
    → (eq_ignore_ascii_case group (text "all") ≡ false)
      × (check_group_members members group ms ≡ ok tt)
unfolding check_groups get
check_groups_known members [] group ms h e = absurd (ground arith)
check_groups_known members ((g, xs) ∷ gs) group ms h e =
    ground (arith, check_groups_known members gs group ms, beq_iff group g)

pub accepted_aggregate :
    (a : Aggregate)
    → check_members a.members ≡ ok tt
    → check_groups a.members a.groups ≡ ok tt
    → IsValid a
accepted_aggregate a hm hg = record {
  named = λ key member e. check_members-IsNamed a.members key member hm e;
  known = λ group ms m e c.
      check_group_members_known a.members group ms m
        (check_groups_known a.members a.groups group ms hg e).1 c;
  unreserved = λ group ms e. (check_groups_known a.members a.groups group ms hg e).0;
}
