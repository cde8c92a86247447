-- ===== src/Orm/Filters.antt =====
-- nexau/archs/session/orm/filters: the filters that the program builds (dsl.py) and `evaluate`
-- (converter.py).
use nex_au.Prelude.{
  Bool, true, false, not, ◌&&◌, ◌||◌, List, [], ◌∷◌, ◌==◌, nat_eq, list_eq, ltb, leb, contains,
}
use nex_au.Prelude.Text.{Text}
use nex_au.Orm.{Value, null, num, str, value_eq}

-- `ComparisonFilter.eq` and its siblings, AndFilter, OrFilter, NotFilter.
mutual
  pub data Filter : Type 0 where
    eq neq gt gte lt lte : Text → Value → Filter
    in_ : Text → List Value → Filter
    is_null : Text → Filter
    and_ or_ : Filters → Filter
    not_ : Filter → Filter

  pub data Filters : Type 0 where
    nil : Filters
    cons : Filter → Filters → Filters

-- `<` and `<=` of two strings.
abbrev pub text_lt : Text → Text → Bool
text_lt [] [] = false
text_lt [] (_ ∷ _) = true
text_lt (_ ∷ _) [] = false
text_lt (c ∷ s) (d ∷ t) = ltb c d || (c == d && text_lt s t)

-- `_safe_compare`: False where Python's comparison is a TypeError, or one side is None.
abbrev pub safe_lt : Value → Value → Bool
safe_lt (num a) (num b) = ltb a b
safe_lt (str s) (str t) = text_lt s t
safe_lt _ _ = false

abbrev pub safe_le : Value → Value → Bool
safe_le (num a) (num b) = leb a b
safe_le (str s) (str t) = text_lt s t || s == t
safe_le _ _ = false

abbrev pub is_none : Value → Bool
is_none null = true
is_none _ = false

-- `evaluate` of a record, given by its fields: `record.get(field, None)`.
unfoldable mutual
  pub evaluate : (Text → Value) → Filter → Bool
  evaluate get (eq f v) = get f == v
  evaluate get (neq f v) = not (get f == v)
  evaluate get (gt f v) = safe_lt v (get f)
  evaluate get (gte f v) = safe_le v (get f)
  evaluate get (lt f v) = safe_lt (get f) v
  evaluate get (lte f v) = safe_le (get f) v
  evaluate get (in_ f vs) = contains vs (get f)
  evaluate get (is_null f) = is_none (get f)
  evaluate get (and_ fs) = evaluate_all get fs
  evaluate get (or_ fs) = evaluate_any get fs
  evaluate get (not_ f) = not (evaluate get f)

  pub evaluate_all : (Text → Value) → Filters → Bool
  evaluate_all get nil = true
  evaluate_all get (cons f fs) = evaluate get f && evaluate_all get fs

  pub evaluate_any : (Text → Value) → Filters → Bool
  evaluate_any get nil = false
  evaluate_any get (cons f fs) = evaluate get f || evaluate_any get fs

abbrev pub filters : List Filter → Filters
filters [] = nil
filters (f ∷ fs) = cons f (filters fs)

-- `AndFilter(filters=[…])`
abbrev pub all_of : List Filter → Filter
all_of fs = and_ (filters fs)
