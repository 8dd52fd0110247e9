-- ===== src/Column/Types.antt =====
-- The type of a column, and what is documented of the client library's columns: what is done to a column keeps its
-- type, and the columns inside it have the types that its type names.
use php_clickhouse.Base.{ℕ, zero, suc, ◌≡◌, ◌∙◌, sym, subst, Bool, some}
use php_clickhouse.Errors.{returns}
use php_clickhouse.Column.{
  Code, ColumnType, scalar, nullable, array_of, tuple_of, map_of, low_cardinality, Members,
  no_members, member_and, Input, Columns,
}

-- The members from member `i` on.
abbrev pub drop_members : ℕ → Members → Members
drop_members zero tys = tys
drop_members (suc i) no_members = no_members
drop_members (suc i) (member_and ty tys) = drop_members i tys

pub drop_members-suc :
    (i : ℕ) (all tys : Members) (ty : ColumnType)
    → drop_members i all ≡ member_and ty tys
    → drop_members (suc i) all ≡ tys
drop_members-suc zero no_members tys ty h = cc
drop_members-suc zero (member_and ty' all) tys ty h = cc
drop_members-suc (suc i) no_members tys ty h = cc
drop_members-suc (suc i) (member_and ty' all) tys ty h = drop_members-suc i all tys ty h

-- No Map is in the type.
unfoldable mutual
  pub MapFree : ColumnType → Type 0
  MapFree (scalar code) = Unit {0}
  MapFree (nullable ty) = MapFree ty
  MapFree (array_of ty) = MapFree ty
  MapFree (tuple_of tys) = AllMapFree tys
  MapFree (map_of kt vt) = ⊥
  MapFree low_cardinality = Unit {0}

  pub AllMapFree : Members → Type 0
  AllMapFree no_members = Unit {0}
  AllMapFree (member_and ty tys) = MapFree ty × AllMapFree tys

-- No Map is inside an Array or a Map. The code appends the elements of these to a copy of a column that is gone after
-- the row, with its Type.
unfoldable mutual
  unfolding MapFree

  pub Steady : ColumnType → Type 0
  Steady (scalar code) = Unit {0}
  Steady (nullable ty) = Steady ty
  Steady (array_of ty) = MapFree ty
  Steady (tuple_of tys) = AllSteady tys
  Steady (map_of kt vt) = MapFree kt × MapFree vt
  Steady low_cardinality = Unit {0}

  pub AllSteady : Members → Type 0
  AllSteady no_members = Unit {0}
  AllSteady (member_and ty tys) = Steady ty × AllSteady tys

mutual
  unfolding MapFree Steady

  MapFree-Steady : (ty : ColumnType) → MapFree ty → Steady ty
  MapFree-Steady (scalar code) f = tt
  MapFree-Steady (nullable ty) f = MapFree-Steady ty f
  MapFree-Steady (array_of ty) f = f
  MapFree-Steady (tuple_of tys) f = AllMapFree-AllSteady tys f
  MapFree-Steady (map_of kt vt) f = absurd f
  MapFree-Steady low_cardinality f = tt

  AllMapFree-AllSteady : (tys : Members) → AllMapFree tys → AllSteady tys
  AllMapFree-AllSteady no_members f = tt
  AllMapFree-AllSteady (member_and ty tys) (f, fs) =
      (MapFree-Steady ty f, AllMapFree-AllSteady tys fs)

drop_members-Steady :
    (i : ℕ) (all tys : Members) (ty : ColumnType)
    → AllSteady all
    → drop_members i all ≡ member_and ty tys
    → Steady ty
unfolding Steady
drop_members-Steady zero no_members tys ty s h = cc
drop_members-Steady zero (member_and ty' all) tys ty (s, ss) h =
    let same : ty' ≡ ty = cc in subst Steady same s
drop_members-Steady (suc i) no_members tys ty s h = cc
drop_members-Steady (suc i) (member_and ty' all) tys ty (s, ss) h =
    drop_members-Steady i all tys ty ss h

-- `type_of` is `col->Type()`. `lives` says of a column that its Map types, if it has any, stay alive until the insert
-- ends; `same_id`: of two such types that have one address it is the same type.
pub record KeepsTypes {Column : Type 0} (lib : Columns Column) (type_of : Column → ColumnType)
    (lives : Column → Type 0) : Type 0 where
  pub append_type :
      (code : Code) (d : Input code) (c c' : Column)
      → lib.append code d c ≡ returns c'
      → type_of c' ≡ type_of c
  pub flag_type : (b : Bool) (c : Column) → type_of (lib.append_flag b c) ≡ type_of c
  pub nested_type :
      (c : Column) (ty : ColumnType) → type_of c ≡ nullable ty → type_of (lib.nested c) ≡ ty
  pub set_nested_type :
      (c m : Column) (ty : ColumnType)
      → type_of c ≡ nullable ty
      → type_of m ≡ ty
      → type_of (lib.set_nested c m) ≡ nullable ty
  pub element_type :
      (c : Column) (ty : ColumnType)
      → type_of c ≡ array_of ty
      → type_of (lib.clone_empty (lib.array_data c)) ≡ ty
  pub array_type :
      (e c c' : Column) → lib.append_as_column e c ≡ returns c' → type_of c' ≡ type_of c
  pub member_type :
      (c : Column) (i : ℕ) (all tys : Members) (ty : ColumnType)
      → type_of c ≡ tuple_of all
      → drop_members i all ≡ member_and ty tys
      → type_of (lib.member c i) ≡ ty
  pub set_member_type :
      (c m : Column) (i : ℕ) (all tys : Members) (ty : ColumnType)
      → type_of c ≡ tuple_of all
      → drop_members i all ≡ member_and ty tys
      → type_of m ≡ ty
      → type_of (lib.set_member c i m) ≡ tuple_of all
  pub map_type : (r c c' : Column) → lib.append_map r c ≡ returns c' → type_of c' ≡ type_of c
  pub create_type :
      (ty : ColumnType) (c : Column) → lib.create ty ≡ some c → type_of (lib.clone_empty c) ≡ ty
  pub free_lives : (c : Column) → MapFree (type_of c) → lives c
  pub flag_lives : (b : Bool) (c : Column) → lives c → lives (lib.append_flag b c)
  pub nested_lives : (c : Column) → lives c → lives (lib.nested c)
  pub set_nested_lives : (c m : Column) → lives c → lives m → lives (lib.set_nested c m)
  pub member_lives : (c : Column) (i : ℕ) → lives c → lives (lib.member c i)
  pub set_member_lives : (c m : Column) (i : ℕ) → lives c → lives m → lives (lib.set_member c i m)
  pub map_lives : (r c c' : Column) → lib.append_map r c ≡ returns c' → lives c → lives c'
  pub same_id :
      (c c' : Column) (kt vt kt' vt' : ColumnType)
      → lives c
      → lives c'
      → type_of c ≡ map_of kt vt
      → type_of c' ≡ map_of kt' vt'
      → lib.type_id c ≡ lib.type_id c'
      → map_of kt vt ≡ map_of kt' vt'

module _ {Column : Type 0} (type_of : Column → ColumnType) (lives : Column → Type 0) where
  -- A column of a type whose Map types stay alive.
  abbrev pub Typed : ColumnType → Column → Type 0
  Typed ty c = (type_of c ≡ ty) × Steady ty × lives c

module _ {Column : Type 0} (lib : Columns Column) (type_of : Column → ColumnType)
    {lives : Column → Type 0} (laws : KeepsTypes lib type_of lives) where
  free-Typed :
      (ty : ColumnType) (c : Column) → type_of c ≡ ty → MapFree ty → Typed type_of lives ty c
  free-Typed ty c e f = (e, MapFree-Steady ty f, laws.free_lives c (subst MapFree (sym e) f))

  pub append-Typed :
      (code : Code) (d : Input code) (c c' : Column)
      → lib.append code d c ≡ returns c'
      → Typed type_of lives (scalar code) c
      → Typed type_of lives (scalar code) c'
  unfolding MapFree
  append-Typed code d c c' h (e, s, l) =
      free-Typed (scalar code) c' (laws.append_type code d c c' h ∙ e) tt

  pub nested-Typed :
      (ty : ColumnType) (c : Column)
      → Typed type_of lives (nullable ty) c
      → Typed type_of lives ty (lib.nested c)
  unfolding Steady
  nested-Typed ty c (e, s, l) = (laws.nested_type c ty e, s, laws.nested_lives c l)

  pub flagged-Typed :
      (ty : ColumnType) (b : Bool) (c m : Column)
      → Typed type_of lives (nullable ty) c
      → Typed type_of lives ty m
      → Typed type_of lives (nullable ty) (lib.append_flag b (lib.set_nested c m))
  flagged-Typed ty b c m (e, s, l) (em, sm, lm) = (
    laws.flag_type b (lib.set_nested c m) ∙ laws.set_nested_type c m ty e em,
    s,
    laws.flag_lives b (lib.set_nested c m) (laws.set_nested_lives c m l lm),
  )

  pub element-Typed :
      (ty : ColumnType) (c : Column)
      → Typed type_of lives (array_of ty) c
      → Typed type_of lives ty (lib.clone_empty (lib.array_data c))
  unfolding Steady
  element-Typed ty c (e, s, l) = free-Typed ty _ (laws.element_type c ty e) s

  pub array-Typed :
      (ty : ColumnType) (r c c' : Column)
      → lib.append_as_column r c ≡ returns c'
      → Typed type_of lives (array_of ty) c
      → Typed type_of lives (array_of ty) c'
  unfolding Steady MapFree
  array-Typed ty r c c' h (e, s, l) = free-Typed (array_of ty) c' (laws.array_type r c c' h ∙ e) s

  pub member-Typed :
      (all tys : Members) (ty : ColumnType) (c : Column) (i : ℕ)
      → Typed type_of lives (tuple_of all) c
      → drop_members i all ≡ member_and ty tys
      → Typed type_of lives ty (lib.member c i)
  unfolding Steady
  member-Typed all tys ty c i (e, s, l) d = (
    laws.member_type c i all tys ty e d,
    drop_members-Steady i all tys ty s d,
    laws.member_lives c i l,
  )

  pub set_member-Typed :
      (all tys : Members) (ty : ColumnType) (c m : Column) (i : ℕ)
      → Typed type_of lives (tuple_of all) c
      → drop_members i all ≡ member_and ty tys
      → Typed type_of lives ty m
      → Typed type_of lives (tuple_of all) (lib.set_member c i m)
  set_member-Typed all tys ty c m i (e, s, l) d (em, sm, lm) =
      (laws.set_member_type c m i all tys ty e d em, s, laws.set_member_lives c m i l lm)

  pub map-Typed :
      (kt vt : ColumnType) (r c c' : Column)
      → lib.append_map r c ≡ returns c'
      → Typed type_of lives (map_of kt vt) c
      → Typed type_of lives (map_of kt vt) c'
  map-Typed kt vt r c c' h (e, s, l) = (laws.map_type r c c' h ∙ e, s, laws.map_lives r c c' h l)

  -- The empty copies of the templates of a Map type.
  pub templates-Typed :
      (kt vt : ColumnType) (c k v : Column)
      → Typed type_of lives (map_of kt vt) c
      → lib.create kt ≡ some k
      → lib.create vt ≡ some v
      → Typed type_of lives kt (lib.clone_empty k) × Typed type_of lives vt (lib.clone_empty v)
  unfolding Steady
  templates-Typed kt vt c k v (e, (fk, fv), l) hk hv =
      (free-Typed kt _ (laws.create_type kt k hk) fk, free-Typed vt _ (laws.create_type vt v hv) fv)
