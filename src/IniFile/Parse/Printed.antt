-- ===== src/IniFile/Parse/Printed.antt =====
-- A section that is printed is read back.
use https_proxy_server.Base.{
  ℕ, suc, ◌+◌, ◌-◌, Bool, true, false, not, ◌&&◌, ◌||◌, none, some, List, [], ◌∷◌, ◌++◌, ◌==◌,
  if◌then◌else◌, length, take, drop, get_or, all, Bytes, ◌≡◌, refl, sym, ap, ◌∙◌, arith,
  append_assoc, append-nil, take-append, drop-append, length-append, get_or-append, drop-add,
}
use https_proxy_server.Cstring.{is_space, skip_spaces}
use https_proxy_server.Http.Parser.Types.{HeaderMap, insert, find}
use https_proxy_server.Http.Parser.HeaderMap.{bytes_eq_iff, find-insert_all}
use https_proxy_server.Http.Parser.HeaderLine.RoundTrip.{insert_all}
use https_proxy_server.IniFile.{
  trim, trim_left, trim_right, reverse_onto, find_in, KeyValue, Sections, find_section,
}
use https_proxy_server.IniFile.Values.{value_at}
use https_proxy_server.IniFile.Parse.{
  lines_from, find_byte, add_section, insert_in, parse_section, parse_entry, parse_trimmed,
  parse_line, parse_lines, parsecontent, section_named,
}

abbrev pub is_plain : ℕ → Bool
is_plain c = not (is_space c)

-- A key has no white space and no `=`, and starts neither a comment nor a section; a value has no
-- white space.
abbrev pub is_entry : Bytes × Bytes → Bool
is_entry ([], value) = false
is_entry (c ∷ key, value) =
    not (c == b'#' || c == b';' || c == b'[')
    && (all (λ x. is_plain x && not (x == b'=')) (c ∷ key) && all is_plain value)

abbrev pub print_entries : HeaderMap → Bytes
print_entries [] = []
print_entries ((key, value) ∷ entries) = (key ++ b'=' ∷ value) ++ 10 ∷ print_entries entries

-- `[name]` and `key=value` for each entry.
abbrev pub print_section : Bytes → HeaderMap → Bytes
print_section name entries = (b'[' ∷ name ++ b']' ∷ []) ++ 10 ∷ print_entries entries

all_append :
    (test : ℕ → Bool) (a b : Bytes)
    → all test a ≡ true
    → all test b ≡ true
    → all test (a ++ b) ≡ true
all_append test [] b h k = k
all_append test (x ∷ a) b h k = let ih = all_append test a b (ground arith) k in ground arith

is_plain-newline : (c : ℕ) → is_plain c ≡ true → ((c == 13) ≡ false) × ((c == 10) ≡ false)
unfolding is_space
is_plain-newline c h = ground arith

lines_from-plain :
    (started : Bool) (line x rest : Bytes)
    → all is_plain x ≡ true
    → lines_from started line (x ++ 10 ∷ rest) ≡ (line ++ x) ∷ lines_from false [] rest
unfolding lines_from
lines_from-plain false line [] rest h =
    ap (λ l. l ∷ lines_from false [] rest) (sym (append-nil line))
lines_from-plain true line [] rest h =
    ap (λ l. l ∷ lines_from false [] rest) (sym (append-nil line))
lines_from-plain false line (c ∷ x) rest h =
    let (r, n) = is_plain-newline c (ground arith) in
    rw (lines_from, r, n)
      (lines_from-plain true (line ++ c ∷ []) x rest (ground arith)
        ∙ ap (λ l. l ∷ lines_from false [] rest) (append_assoc line (c ∷ []) x))
lines_from-plain true line (c ∷ x) rest h =
    let (r, n) = is_plain-newline c (ground arith) in
    rw (lines_from, r, n)
      (lines_from-plain true (line ++ c ∷ []) x rest (ground arith)
        ∙ ap (λ l. l ∷ lines_from false [] rest) (append_assoc line (c ∷ []) x))

reverse_onto_append : (a b c : Bytes) → reverse_onto (a ++ b) c ≡ reverse_onto b (reverse_onto a c)
reverse_onto_append [] b c = refl
reverse_onto_append (x ∷ a) b c = reverse_onto_append a b (x ∷ c)

reverse_twice : (a b c : Bytes) → reverse_onto (reverse_onto a b) c ≡ reverse_onto b (a ++ c)
reverse_twice [] b c = refl
reverse_twice (x ∷ a) b c = reverse_twice a (x ∷ b) c

all_reverse :
    (a b : Bytes)
    → all is_plain a ≡ true
    → all is_plain b ≡ true
    → all is_plain (reverse_onto a b) ≡ true
all_reverse [] b h k = k
all_reverse (x ∷ a) b h k = all_reverse a (x ∷ b) (ground arith) (ground arith)

skip_spaces-plain : (x : Bytes) → all is_plain x ≡ true → skip_spaces x ≡ x
unfolding skip_spaces
skip_spaces-plain [] h = refl
skip_spaces-plain (c ∷ x) h = ground arith

trim-plain : (x : Bytes) → all is_plain x ≡ true → trim x ≡ x
unfolding trim trim_left trim_right
trim-plain x h =
    ap (λ k. reverse_onto (skip_spaces (reverse_onto k [])) []) (skip_spaces-plain x h)
    ∙ ap (λ k. reverse_onto k []) (skip_spaces-plain (reverse_onto x []) (all_reverse x [] h refl))
    ∙ reverse_twice x [] []
    ∙ append-nil x

plain_cons :
    (c : ℕ) (x : Bytes)
    → all is_plain (c ∷ x) ≡ true
    → (is_plain c ≡ true) × (all is_plain x ≡ true)
plain_cons c x h = ground arith

section_line :
    (c : ℕ) (name section : Bytes) (datas : Sections)
    → all is_plain (c ∷ name) ≡ true
    → parse_line (b'[' ∷ (c ∷ name) ++ b']' ∷ []) section datas
      ≡ some (c ∷ name, add_section (c ∷ name) datas)
unfolding parse_line parse_trimmed parse_section is_space
section_line c name section datas h =
    let full = c ∷ name in
    let line = b'[' ∷ full ++ b']' ∷ [] in
    let plain : all is_plain line ≡ true = all_append is_plain full (b']' ∷ []) h refl in
    let last_at : length line - 1 ≡ length (b'[' ∷ full) =
      omega (arith, length-append full (b']' ∷ [])) in
    let last_is : get_or line (length line - 1) 0 ≡ b']' =
      ap (λ i. get_or line i 0) last_at ∙ get_or-append (b'[' ∷ full) [] b']' 0 in
    let size : length line - 2 ≡ length full = omega (arith, length-append full (b']' ∷ [])) in
    let name_is : take (length line - 2) (drop 1 line) ≡ full =
      ap (λ n. take n (full ++ b']' ∷ [])) size ∙ take-append full (b']' ∷ []) in
    ap (λ l. parse_trimmed l section datas) (trim-plain line plain)
    ∙ ap
        (λ b.
          if b == b']' then section_named (take (length line - 2) (drop 1 line)) datas else none)
        last_is
    ∙ ap (λ n. section_named n datas) name_is
    ∙ ap (λ n. some (n, add_section n datas)) (trim-plain full h)

find_byte-key :
    (key rest : Bytes)
    → all (λ x. is_plain x && not (x == b'=')) key ≡ true
    → find_byte b'=' (key ++ b'=' ∷ rest) ≡ some (length key)
unfolding find_byte
find_byte-key [] rest h = refl
find_byte-key (c ∷ key) rest h =
    let n : (c == b'=') ≡ false = ground arith in
    rw (find_byte, n, find_byte-key key rest (ground arith))

key_plain :
    (key : Bytes) → all (λ x. is_plain x && not (x == b'=')) key ≡ true → all is_plain key ≡ true
key_plain [] h = refl
key_plain (c ∷ key) h = let ih = key_plain key (ground arith) in ground arith

entry_parts :
    (c : ℕ) (key value : Bytes)
    → is_entry (c ∷ key, value) ≡ true
    → ((c == b'#' || c == b';') ≡ false)
      × ((c == b'[') ≡ false)
      × (all (λ x. is_plain x && not (x == b'=')) (c ∷ key) ≡ true)
      × (all is_plain value ≡ true)
entry_parts c key value h = ground arith

entry_line :
    (c : ℕ) (key value section : Bytes) (kv : KeyValue) (datas : Sections)
    → is_entry (c ∷ key, value) ≡ true
    → find_section section datas ≡ some kv
    → parse_line ((c ∷ key) ++ b'=' ∷ value) section datas
      ≡ some (section, insert_in section (c ∷ key) value datas)
unfolding parse_line parse_trimmed parse_entry is_space
entry_line c key value section kv datas h f =
    let (no_comment, no_section, keys, values) = entry_parts c key value h in
    let full = c ∷ key in
    let line = full ++ b'=' ∷ value in
    let full_plain = key_plain full keys in
    let plain : all is_plain line ≡ true =
      all_append is_plain full (b'=' ∷ value) full_plain values in
    let at : find_byte b'=' line ≡ some (suc (length key)) = find_byte-key full value keys in
    let key_is : trim (take (length full) line) ≡ full =
      ap trim (take-append full (b'=' ∷ value)) ∙ trim-plain full full_plain in
    let value_is : trim (drop (length full + 1) line) ≡ value =
      ap trim (sym (drop-add (length full) 1 line) ∙ ap (drop 1) (drop-append full (b'=' ∷ value)))
      ∙ trim-plain value values in
    ap (λ l. parse_trimmed l section datas) (trim-plain line plain)
    ∙ rw (no_comment, no_section, parse_entry, at, f, key_is, value_is)

find_section-head : (name : Bytes) (kv : KeyValue) → find_section name ((name, kv) ∷ []) ≡ some kv
unfolding find_section
find_section-head name kv = rw ((bytes_eq_iff name name).1 refl)

insert_in-head :
    (name key value : Bytes) (kv : KeyValue)
    → insert_in name key value ((name, kv) ∷ []) ≡ (name, insert key value kv) ∷ []
unfolding insert_in
insert_in-head name key value kv = rw ((bytes_eq_iff name name).1 refl)

parse_lines-cons :
    (line : Bytes) (lines : List Bytes) (section section' : Bytes) (datas datas' : Sections)
    → parse_line line section datas ≡ some (section', datas')
    → parse_lines (line ∷ lines) section datas ≡ parse_lines lines section' datas'
unfolding parse_lines
parse_lines-cons line lines section section' datas datas' e = rw (parse_lines, e)

entries_read :
    (entries : HeaderMap) (name : Bytes) (kv : KeyValue)
    → all is_entry entries ≡ true
    → parse_lines (lines_from false [] (print_entries entries)) name ((name, kv) ∷ [])
      ≡ some ((name, insert_all entries kv) ∷ [])
unfolding parse_lines lines_from is_space
entries_read [] name kv h = refl
entries_read (([], value) ∷ entries) name kv h = absurd (let z = entry_false h in cc)
  where
    entry_false : (false && all is_entry entries) ≡ true → false ≡ true
    entry_false e = e
entries_read ((c ∷ key, value) ∷ entries) name kv h =
    let (this, others) = two_tests (is_entry (c ∷ key, value)) (all is_entry entries) h in
    let (no_comment, no_section, keys, values) = entry_parts c key value this in
    let line = (c ∷ key) ++ b'=' ∷ value in
    let plain : all is_plain line ≡ true =
      all_append is_plain (c ∷ key) (b'=' ∷ value) (key_plain (c ∷ key) keys) values in
    ap (λ l. parse_lines l name ((name, kv) ∷ []))
      (lines_from-plain false [] line (print_entries entries) plain)
    ∙ parse_lines-cons line (lines_from false [] (print_entries entries)) name name
        ((name, kv) ∷ []) ((name, insert (c ∷ key) value kv) ∷ [])
        (entry_line c key value name kv ((name, kv) ∷ []) this (find_section-head name kv)
          ∙ ap (λ d. some (name, d)) (insert_in-head name (c ∷ key) value kv))
    ∙ entries_read entries name (insert (c ∷ key) value kv) others
  where
    two_tests : (x y : Bool) → (x && y) ≡ true → (x ≡ true) × (y ≡ true)
    two_tests x y e = ground arith

-- A printed section is read: a name with no white space, and entries whose keys have no white space
-- and no `=` and start neither a comment nor a section, and whose values have no white space. Each
-- key then has the value of its first entry, and no other key has one.
pub parsecontent-print_section :
    (c : ℕ) (name : Bytes) (entries : HeaderMap)
    → all is_plain (c ∷ name) ≡ true
    → all is_entry entries ≡ true
    → (datas : Sections) × (parsecontent (print_section (c ∷ name) entries) [] ≡ some datas)
      × ((key : Bytes) → value_at (c ∷ name) key datas ≡ find key entries)
unfolding parsecontent find add_section is_space
parsecontent-print_section c name entries h k =
    let full = c ∷ name in
    let line = b'[' ∷ full ++ b']' ∷ [] in
    let plain : all is_plain line ≡ true = all_append is_plain full (b']' ∷ []) h refl in
    (
      (full, insert_all entries []) ∷ [],
      ap (λ l. parse_lines l [] []) (lines_from-plain false [] line (print_entries entries) plain)
          ∙ parse_lines-cons line (lines_from false [] (print_entries entries)) [] full []
              ((full, []) ∷ []) (section_line c name [] [] h)
          ∙ entries_read entries full [] k,
      λ key.
          ap (λ o. find_in o key) (find_section-head full (insert_all entries []))
          ∙ find-insert_all key entries [],
    )
