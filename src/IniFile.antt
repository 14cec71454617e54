-- ===== src/IniFile.antt =====
-- `ini_file` of base/ini_file.cpp: the values in memory, by section and key, with `trim` of
-- base/cstring.h. The maps are association lists, whose `insert` keeps an entry that is there.
pub mod Values
pub mod Parse
use https_proxy_server.Base.{
  ℕ, Bool, true, false, Option, none, some, List, [], ◌∷◌, ◌++◌, if◌then◌else◌, Bytes,
}
use https_proxy_server.Cstring.{skip_spaces}
use https_proxy_server.Http.Parser.Types.{HeaderMap, bytes_eq, find}

abbrev pub reverse_onto : Bytes → Bytes → Bytes
reverse_onto [] done = done
reverse_onto (c ∷ text) done = reverse_onto text (c ∷ done)

-- `trim_left` and `trim_right`, which erase spaces one at a time.
unfoldable pub trim_left : Bytes → Bytes
unfolding skip_spaces
trim_left text = skip_spaces text

unfoldable pub trim_right : Bytes → Bytes
unfolding skip_spaces
trim_right text = reverse_onto (skip_spaces (reverse_onto text [])) []

-- `trim_copy`
unfoldable pub trim : Bytes → Bytes
unfolding trim_left trim_right
trim text = trim_right (trim_left text)

abbrev pub KeyValue : Type 0
KeyValue = HeaderMap

abbrev pub Sections : Type 0
Sections = List (Bytes × KeyValue)

-- `datas_.find`
unfoldable pub find_section : Bytes → Sections → Option KeyValue
find_section name [] = none
find_section name ((key, kv) ∷ datas) =
    if bytes_eq key name then some kv else find_section name datas

-- `kv.find`, and the insertion of a new key or `kit->second = v`.
unfoldable pub set_key : Bytes → Bytes → KeyValue → KeyValue
set_key name value [] = (name, value) ∷ []
set_key name value ((key, old) ∷ kv) =
    if bytes_eq key name then (key, value) ∷ kv else (key, old) ∷ set_key name value kv

unfoldable pub erase_key : Bytes → KeyValue → KeyValue
erase_key name [] = []
erase_key name ((key, old) ∷ kv) = if bytes_eq key name then kv else (key, old) ∷ erase_key name kv

-- The section is looked up, and made if it is not there, or changed in place.
unfoldable pub set_in : Bytes → Bytes → Bytes → Sections → Sections
unfolding set_key
set_in section name value [] = (section, (name, value) ∷ []) ∷ []
set_in section name value ((key, kv) ∷ datas) =
    if bytes_eq key section
    then (key, set_key name value kv) ∷ datas
    else (key, kv) ∷ set_in section name value datas

-- `set_value_string`
unfoldable pub set_value_string : Bytes → Bytes → Bytes → Sections → Sections
unfolding trim set_in
set_value_string section key val datas = set_in (trim section) (trim key) (trim val) datas

abbrev pub find_in : Option KeyValue → Bytes → Option Bytes
find_in none key = none
find_in (some kv) key = find key kv

-- `get_value_string`: whether the value is there, and it or the default.
abbrev pub or_default : Option Bytes → Bytes → Bool × Bytes
or_default none d = (false, d)
or_default (some v) d = (true, v)

unfoldable pub get_value_string : Bytes → Bytes → Bytes → Sections → Bool × Bytes
unfolding trim find_section
get_value_string section key default_val datas =
    or_default (find_in (find_section (trim section) datas) (trim key)) (trim default_val)

unfoldable pub erase_section : Bytes → Sections → Sections
erase_section name [] = []
erase_section name ((key, kv) ∷ datas) =
    if bytes_eq key name then datas else (key, kv) ∷ erase_section name datas

-- `del_sec`
unfoldable pub del_sec : Bytes → Sections → Sections
unfolding trim erase_section
del_sec section datas = erase_section (trim section) datas

unfoldable pub erase_in : Bytes → Bytes → Sections → Sections
unfolding erase_key
erase_in section name [] = []
erase_in section name ((key, kv) ∷ datas) =
    if bytes_eq key section
    then (key, erase_key name kv) ∷ datas
    else (key, kv) ∷ erase_in section name datas

-- `del_key`
unfoldable pub del_key : Bytes → Bytes → Sections → Sections
unfolding trim erase_in
del_key section key datas = erase_in (trim section) (trim key) datas
