-- ===== src/IniFile/Parse.antt =====
-- `ini_file::getline` and `parsecontent` of base/ini_file.cpp, on the bytes of the file.
pub mod Printed
use https_proxy_server.Base.{
  ℕ, zero, suc, ◌+◌, ◌-◌, Bool, true, false, not, ◌||◌, Option, none, some, List, [], ◌∷◌, ◌++◌,
  ◌==◌, if◌then◌else◌, length, take, drop, get_or, Bytes,
}
use https_proxy_server.Http.Parser.Types.{HeaderMap, bytes_eq, insert}
use https_proxy_server.IniFile.{trim, KeyValue, Sections, find_section}

-- The lines that the calls of `getline` give until the end of the file: a carriage return is left
-- out anywhere. `started` tells whether the line has begun.
unfoldable pub lines_from : Bool → Bytes → Bytes → List Bytes
lines_from false line [] = []
lines_from true line [] = line ∷ []
lines_from started line (c ∷ text) = elim (c == 13) [
  | true ↦ lines_from true line text
  | false ↦ elim (c == 10) [
    | true ↦ line ∷ lines_from false [] text
    | false ↦ lines_from true (line ++ c ∷ []) text
  ]
]

-- `line.find('=')`
unfoldable pub find_byte : ℕ → Bytes → Option ℕ
find_byte c [] = none
find_byte c (x ∷ text) = elim (x == c) [
  | true ↦ some 0
  | false ↦ elim (find_byte c text) [ none ↦ none | some i ↦ some (suc i) ]
]

-- `datas_.insert(make_pair(cursec,key_value()))`
unfoldable pub add_section : Bytes → Sections → Sections
add_section name [] = (name, []) ∷ []
add_section name ((key, kv) ∷ datas) =
    if bytes_eq key name then (key, kv) ∷ datas else (key, kv) ∷ add_section name datas

-- `(iter->second).insert(make_pair(curkey,curvalue))`
unfoldable pub insert_in : Bytes → Bytes → Bytes → Sections → Sections
unfolding insert
insert_in section name value [] = []
insert_in section name value ((key, kv) ∷ datas) =
    if bytes_eq key section
    then (key, insert name value kv) ∷ datas
    else (key, kv) ∷ insert_in section name value datas

-- What a line leaves: the current section and the values; `none` is the result false.
abbrev pub Parsed : Type 0
Parsed = Option (Bytes × Sections)

abbrev pub section_named : Bytes → Sections → Parsed
section_named [] datas = none
section_named (c ∷ name) datas = some (trim (c ∷ name), add_section (trim (c ∷ name)) datas)

unfoldable pub parse_section : Bytes → Sections → Parsed
unfolding add_section
parse_section line datas =
    if get_or line (length line - 1) 0 == b']'
    then section_named (take (length line - 2) (drop 1 line)) datas
    else none

unfoldable pub parse_entry : Bytes → Bytes → Sections → Parsed
unfolding find_byte insert_in
parse_entry line section datas = elim (find_byte b'=' line) [
  | none ↦ none
  | some zero ↦ none
  | some (suc p) ↦ elim (find_section section datas) [
    | none ↦ none
    | some kv ↦
        some (
          section,
          insert_in section (trim (take (suc p) line)) (trim (drop (suc p + 1) line)) datas,
        )
  ]
]

-- A line that is trimmed. The first byte of an empty string is its NUL.
unfoldable pub parse_trimmed : Bytes → Bytes → Sections → Parsed
unfolding parse_section parse_entry
parse_trimmed line section datas =
    let tag = get_or line 0 0 in
    if tag == b'#' || tag == b';'
    then some (section, datas)
    else if tag == b'['
    then parse_section line datas
    else parse_entry line section datas

unfoldable pub parse_line : Bytes → Bytes → Sections → Parsed
unfolding parse_trimmed
parse_line [] section datas = some (section, datas)
parse_line (c ∷ line) section datas = parse_trimmed (trim (c ∷ line)) section datas

unfoldable pub parse_lines : List Bytes → Bytes → Sections → Option Sections
unfolding parse_line
parse_lines [] section datas = some datas
parse_lines (line ∷ lines) section datas = elim (parse_line line section datas) [
  | none ↦ none
  | some (section', datas') ↦ parse_lines lines section' datas'
]

-- `parsecontent`
unfoldable pub parsecontent : Bytes → Sections → Option Sections
unfolding lines_from parse_lines
parsecontent text datas = parse_lines (lines_from false [] text) [] datas
