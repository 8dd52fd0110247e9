-- ===== src/Column/TreeTypes.antt =====
-- The library of trees keeps types.
use php_clickhouse.Base.{ℕ, zero, suc, ◌≡◌, refl, ap, sym, ◌∙◌, none, some, Option, arith}
use php_clickhouse.Errors.{returns-eq}
use php_clickhouse.Column.{
  w8, w16, w32, w64, low_cardinality, int, uint, float32, float64, boolean, string, fixed_string,
  date, date32, datetime, datetime64, ipv4, ipv6, uuid, enum8, enum16, decimal, int128, uint128,
  other, ColumnType, scalar, nullable, array_of, tuple_of, Members, member_and, map_of,
}
use php_clickhouse.Column.Types.{drop_members, KeepsTypes}
use php_clickhouse.Column.Trees.{
  Kind, whole_numbers, texts, lists, pairs, type_of_kind, flat, optional, tuple, shape_of,
  type_of_shape, first_members, Tree, blank, node, type_of, create_of, inner_of, emptied, put_at,
  trees,
}

-- The type of a column that was created, with no rows.
abbrev type_of_option : Option Tree → ColumnType
type_of_option none = low_cardinality
type_of_option (some c) = type_of (emptied c)

trees-create_type : (ty : ColumnType) (c : Tree) → create_of ty ≡ some c → type_of (emptied c) ≡ ty
trees-create_type (scalar string) t h = sym (ap type_of_option h)
trees-create_type (scalar (int w8)) t h = sym (ap type_of_option h)
trees-create_type (scalar (uint w)) t h = cc
trees-create_type (scalar float32) t h = cc
trees-create_type (scalar float64) t h = cc
trees-create_type (scalar boolean) t h = cc
trees-create_type (scalar fixed_string) t h = cc
trees-create_type (scalar date) t h = cc
trees-create_type (scalar date32) t h = cc
trees-create_type (scalar datetime) t h = cc
trees-create_type (scalar (datetime64 p)) t h = cc
trees-create_type (scalar ipv4) t h = cc
trees-create_type (scalar ipv6) t h = cc
trees-create_type (scalar uuid) t h = cc
trees-create_type (scalar enum8) t h = cc
trees-create_type (scalar enum16) t h = cc
trees-create_type (scalar (decimal s)) t h = cc
trees-create_type (scalar int128) t h = cc
trees-create_type (scalar uint128) t h = cc
trees-create_type (scalar other) t h = cc
trees-create_type (scalar (int w16)) t h = cc
trees-create_type (scalar (int w32)) t h = cc
trees-create_type (scalar (int w64)) t h = cc
trees-create_type (nullable ty) t h = cc
trees-create_type (array_of ty) t h = cc
trees-create_type (tuple_of tys) t h = cc
trees-create_type (map_of kt vt) t h = cc
trees-create_type low_cardinality t h = cc

-- Of these types just one is a Map, one an Array, and none a Nullable or a Tuple.
kind_pairs :
    (k : Kind) (kt vt : ColumnType)
    → type_of_kind k ≡ map_of kt vt
    → type_of_kind pairs ≡ map_of kt vt
kind_pairs whole_numbers kt vt h = cc
kind_pairs texts kt vt h = cc
kind_pairs lists kt vt h = cc
kind_pairs pairs kt vt h = h

kind_lists : (k : Kind) (ty : ColumnType) → type_of_kind k ≡ array_of ty → scalar (int w8) ≡ ty
kind_lists whole_numbers ty h = cc
kind_lists texts ty h = cc
kind_lists lists ty h = cc
kind_lists pairs ty h = cc

no_nullable : (k : Kind) (ty : ColumnType) → ¬ (type_of_kind k ≡ nullable ty)
no_nullable whole_numbers ty h = cc
no_nullable texts ty h = cc
no_nullable lists ty h = cc
no_nullable pairs ty h = cc

no_tuple : (k : Kind) (all : Members) → ¬ (type_of_kind k ≡ tuple_of all)
no_tuple whole_numbers all h = cc
no_tuple texts all h = cc
no_tuple lists all h = cc
no_tuple pairs all h = cc

map_pairs :
    (c : Tree) (kt vt : ColumnType) → type_of c ≡ map_of kt vt → type_of_kind pairs ≡ map_of kt vt
map_pairs (blank k) kt vt h = kind_pairs k kt vt h
map_pairs (node (flat k) n cells flags inner rows) kt vt h = kind_pairs k kt vt h
map_pairs (node optional n cells flags inner rows) kt vt h = cc
map_pairs (node (tuple m) n cells flags inner rows) kt vt h = cc

array_lists : (c : Tree) (ty : ColumnType) → type_of c ≡ array_of ty → scalar (int w8) ≡ ty
array_lists (blank k) ty h = kind_lists k ty h
array_lists (node (flat k) n cells flags inner rows) ty h = kind_lists k ty h
array_lists (node optional n cells flags inner rows) ty h = cc
array_lists (node (tuple m) n cells flags inner rows) ty h = cc

same_shape : (c : Tree) → type_of_shape (shape_of c) (λ i. type_of (inner_of c i)) ≡ type_of c
same_shape (blank k) = refl
same_shape (node s n cells flags inner rows) = refl

trees-nested_type :
    (c : Tree) (ty : ColumnType) → type_of c ≡ nullable ty → type_of (inner_of c 0) ≡ ty
trees-nested_type (blank k) ty h = absurd (no_nullable k ty h)
trees-nested_type (node (flat k) n cells flags inner rows) ty h = absurd (no_nullable k ty h)
trees-nested_type (node optional n cells flags inner rows) ty h = cc
trees-nested_type (node (tuple m) n cells flags inner rows) ty h = cc

trees-set_nested_type :
    (c m : Tree) (ty : ColumnType)
    → type_of c ≡ nullable ty
    → type_of m ≡ ty
    → type_of (trees.set_nested c m) ≡ nullable ty
trees-set_nested_type (blank k) m ty h e = absurd (no_nullable k ty h)
trees-set_nested_type (node (flat k) n cells flags inner rows) m ty h e =
    absurd (no_nullable k ty h)
trees-set_nested_type (node optional n cells flags inner rows) m ty h e = ap nullable e
trees-set_nested_type (node (tuple k) n cells flags inner rows) m ty h e = cc

member_of_first :
    (i m : ℕ) (f : ℕ → ColumnType) (tys : Members) (ty : ColumnType)
    → drop_members i (first_members m f) ≡ member_and ty tys
    → f i ≡ ty
member_of_first zero zero f tys ty h = cc
member_of_first zero (suc m) f tys ty h = cc
member_of_first (suc i) zero f tys ty h = cc
member_of_first (suc i) (suc m) f tys ty h = member_of_first i m (λ j. f (suc j)) tys ty h

first_members-same :
    (m : ℕ) (f g : ℕ → ColumnType) → ((i : ℕ) → f i ≡ g i) → first_members m f ≡ first_members m g
first_members-same zero f g h = refl
first_members-same (suc m) f g h =
    let rest = first_members-same m (λ i. f (suc i)) (λ i. g (suc i)) (λ i. h (suc i)) in
    rw (h 0, rest) refl

tuple_members :
    (f : ℕ → ColumnType) (m : ℕ) (all : Members)
    → tuple_of (first_members m f) ≡ tuple_of all
    → first_members m f ≡ all
tuple_members f m all h = cc

trees-member_type :
    (c : Tree) (i : ℕ) (all tys : Members) (ty : ColumnType)
    → type_of c ≡ tuple_of all
    → drop_members i all ≡ member_and ty tys
    → type_of (inner_of c i) ≡ ty
trees-member_type (blank k) i all tys ty h d = absurd (no_tuple k all h)
trees-member_type (node (flat k) n cells flags inner rows) i all tys ty h d =
    absurd (no_tuple k all h)
trees-member_type (node optional n cells flags inner rows) i all tys ty h d = cc
trees-member_type (node (tuple m) n cells flags inner rows) i all tys ty h d =
    member_of_first i m (λ j. type_of (inner j)) tys ty
      (ap (drop_members i) (tuple_members _ m all h) ∙ d)

put_at_type :
    (i j : ℕ) (m : Tree) (inner : ℕ → Tree)
    → type_of m ≡ type_of (inner i)
    → type_of (put_at i m inner j) ≡ type_of (inner j)
put_at_type i j m inner h = ground arith

trees-set_member_type :
    (c m : Tree) (i : ℕ) (all tys : Members) (ty : ColumnType)
    → type_of c ≡ tuple_of all
    → drop_members i all ≡ member_and ty tys
    → type_of m ≡ ty
    → type_of (trees.set_member c i m) ≡ tuple_of all
trees-set_member_type (blank k) m i all tys ty h d e = absurd (no_tuple k all h)
trees-set_member_type (node (flat k) n cells flags inner rows) m i all tys ty h d e =
    absurd (no_tuple k all h)
trees-set_member_type (node optional n cells flags inner rows) m i all tys ty h d e = cc
trees-set_member_type (node (tuple k) n cells flags inner rows) m i all tys ty h d e =
    let member = trees-member_type (node (tuple k) n cells flags inner rows) i all tys ty h d in
    ap tuple_of (first_members-same k _ _ (λ j. put_at_type i j m inner (e ∙ sym member))) ∙ h

-- The Map types of a tree stay.
abbrev pub Stays : Tree → Type 0
Stays c = Unit

pub trees-KeepsTypes : KeepsTypes trees type_of Stays
trees-KeepsTypes = record {
  append_type = λ code d c c' h. ap type_of (sym (returns-eq h)) ∙ same_shape c;
  flag_type = λ b c. same_shape c;
  nested_type = trees-nested_type;
  set_nested_type = trees-set_nested_type;
  element_type = array_lists;
  array_type = λ e c c' h. ap type_of (sym (returns-eq h)) ∙ same_shape c;
  member_type = trees-member_type;
  set_member_type = trees-set_member_type;
  map_type = λ r c c' h. ap type_of (sym (returns-eq h)) ∙ same_shape c;
  create_type = trees-create_type;
  free_lives = λ c f. tt;
  flag_lives = λ b c l. tt;
  nested_lives = λ c l. tt;
  set_nested_lives = λ c m l k. tt;
  member_lives = λ c i l. tt;
  set_member_lives = λ c m i l k. tt;
  map_lives = λ r c c' h l. tt;
  same_id = λ c c' kt vt kt' vt' l l' h h' e. sym (map_pairs c kt vt h) ∙ map_pairs c' kt' vt' h';
}
