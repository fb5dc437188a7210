-- ===== src/Hwdb/Lookup.antt =====
-- libraries/libhwdb/Hwdb.cpp: MatchAndCollect, GetProperties and GetProperty. `matches` is
-- fnmatch(3) of a pattern and a string, which is not in the repository.
use android_hardware_mainlin.Prelude.{
  Bool, List, [], ◌∷◌, if◌then◌else◌, get_or_else, any_of, Bytes, nat_key, bytes_key, lookup,
  insert,
}
use android_hardware_mainlin.Hwdb.Parser.{Entry}

abbrev pub Properties : Type 0
Properties = List (Bytes × Bytes)

-- The inner loop: result[key] = value for each property.
unfoldable pub collect : Properties → Properties → Properties
collect [] result = result
collect ((key, value) ∷ props) result = collect props (insert key value result)

module _ (matches : Bytes → Bytes → Bool) where
  unfoldable pub matched : Bytes → Entry → Bool
  matched query entry = any_of (λ pattern'. matches pattern' query) entry.match_patterns

  unfoldable pub match_and_collect : List Entry → Bytes → Properties → Properties
  match_and_collect [] query result = result
  match_and_collect (entry ∷ entries) query result =
      match_and_collect entries query
        (if matched query entry then collect entry.properties result else result)

  unfoldable pub get_properties : List Entry → Bytes → Properties
  get_properties entries query = match_and_collect entries query []

  unfoldable pub get_property : List Entry → Bytes → Bytes → Bytes → Bytes
  get_property entries query key default_value =
      get_or_else (lookup key (get_properties entries query)) default_value

  -- The overload for several queries.
  unfoldable pub match_queries : List Entry → List Bytes → Properties → Properties
  match_queries entries [] result = result
  match_queries entries (query ∷ queries) result =
      match_queries entries queries (match_and_collect entries query result)

  unfoldable pub get_properties_of_all : List Entry → List Bytes → Properties
  get_properties_of_all entries queries = match_queries entries queries []
