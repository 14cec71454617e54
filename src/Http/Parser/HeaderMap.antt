-- ===== src/Http/Parser/HeaderMap.antt =====
-- `str_hash_map` as the parser uses it: the first value of a name is kept.
use https_proxy_server.Base.{
  true, ◌≡◌, ◌↔◌, refl, ◌∙◌, arith, [], ◌∷◌, Option, none, some, Bytes, if◌then◌else◌,
}
use https_proxy_server.Http.Parser.Types.{HeaderMap, bytes_eq, find, insert}
use https_proxy_server.Http.Parser.HeaderLine.RoundTrip.{insert_all}

pub bytes_eq_iff : (a b : Bytes) → (bytes_eq a b ≡ true) ↔ (a ≡ b)
bytes_eq_iff [] [] = ground arith
bytes_eq_iff [] (y ∷ b) = ground arith
bytes_eq_iff (x ∷ a) [] = ground arith
bytes_eq_iff (x ∷ a) (y ∷ b) = ground (arith, bytes_eq_iff a b)

-- The first of two results that is there.
abbrev pub or_else {ℓ} : {A : Type ℓ} → Option A → Option A → Option A
or_else none b = b
or_else (some a) b = some a

pub find-insert :
    (name key value : Bytes) (map : HeaderMap)
    → find name (insert key value map)
      ≡ or_else (find name map) (if bytes_eq key name then some value else none)
unfolding find insert
find-insert name key value [] = ground arith
find-insert name key value ((k, old) ∷ map) = ground (
  arith,
  find-insert name key value map,
  bytes_eq_iff k key,
  bytes_eq_iff k name,
  bytes_eq_iff key name,
)

or_else_assoc {ℓ} :
    {A : Type ℓ} (a b c : Option A) → or_else (or_else a b) c ≡ or_else a (or_else b c)
or_else_assoc none b c = refl
or_else_assoc (some x) b c = refl

pub find-insert_all :
    (name : Bytes) (lines map : HeaderMap)
    → find name (insert_all lines map) ≡ or_else (find name map) (find name lines)
unfolding find
find-insert_all name [] map = ground arith
find-insert_all name ((key, value) ∷ lines) map =
    find-insert_all name lines (insert key value map)
    ∙ rw (find-insert name key value map) (
        or_else_assoc (find name map) (if bytes_eq key name then some value else none)
          (find name lines)
        ∙ ground arith)
