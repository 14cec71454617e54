-- ===== src/Connection/UriInfo.antt =====
-- `get_uri_info` of core/connection.cpp: what the target of a request says of the device, of the
-- client's socket and of the callback. A pointer into the target is its offset.
pub mod Ints
pub mod Fields
use https_proxy_server.Base.{
  ℕ, zero, suc, ◌+◌, ◌-◌, ◌%◌, ◌^◌, ltb, min, Bool, true, false, ◌&&◌, ◌||◌, Option, none, some,
  List, [], ◌∷◌, ◌==◌, leb, if◌then◌else◌, length, drop, Bytes, codes,
}
use https_proxy_server.Cstring.{skip_spaces, digits_value}
use https_proxy_server.Http.Stream.{starts_alike}
use https_proxy_server.Http.Parser.FirstLine.{http_post}

abbrev pub offset_by : ℕ → Option ℕ → Option ℕ
offset_by n none = none
offset_by n (some i) = some (n + i)

-- `strcasestr` for a word that is not empty: the offset of the first place where it stands.
unfoldable pub strcasestr : Bytes → Bytes → Option ℕ
strcasestr [] word = none
strcasestr (t ∷ text) word =
    if starts_alike (t ∷ text) word then some 0 else offset_by 1 (strcasestr text word)

-- `strchr`
unfoldable pub strchr : Bytes → ℕ → Option ℕ
strchr [] c = none
strchr (t ∷ text) c = if t == c then some 0 else offset_by 1 (strchr text c)

pub data ℤ : Type 0 where
  pos negsuc : ℕ → ℤ

abbrev pub neg : ℕ → ℤ
neg zero = pos 0
neg (suc n) = negsuc n

-- `strtol` of base 10 behind the spaces: a `long` of 64 bits, where what is out of its range is its
-- largest or its smallest value.
unfoldable pub strtol_digits : Bytes → ℤ
strtol_digits [] = pos 0
strtol_digits (c ∷ text) =
    if c == b'-'
    then neg (min (digits_value 10 0 text) (2 ^ 63))
    else if c == b'+'
    then pos (min (digits_value 10 0 text) (2 ^ 63 - 1))
    else pos (min (digits_value 10 0 (c ∷ text)) (2 ^ 63 - 1))

-- The `int` of 32 bits, and the `int` that a `long` is cut down to.
unfoldable pub int_of_word : ℕ → ℤ
int_of_word word = if ltb word (2 ^ 31) then pos word else neg (2 ^ 32 - word)

unfoldable pub to_int : ℤ → ℤ
unfolding int_of_word
to_int (pos n) = int_of_word (n % 2 ^ 32)
to_int (negsuc n) = int_of_word (2 ^ 32 - 1 - n % 2 ^ 32)

-- `atoi`, which is `(int)strtol` with base 10, as glibc has it.
unfoldable pub atoi : Bytes → ℤ
unfolding strtol_digits to_int
atoi text = to_int (strtol_digits (skip_spaces text))

abbrev pub sc_match1 : Bytes
sc_match1 = codes "/proxy/response?Ver=1&Cmd=2&DeviceID="

abbrev pub sc_match2 : Bytes
sc_match2 = codes "&ConnectID="

abbrev pub sc_match3 : Bytes
sc_match3 = codes "DeviceID="

abbrev pub sc_match4 : Bytes
sc_match4 = codes "callback="

-- `uri_info`: of a server, where its device id begins and, if the id of a connection follows it,
-- where it ends and that id; of a client, where the device id and the callback begin and end.
pub data UriInfo : Type 0 where
  server : ℕ → Option (ℕ × ℤ) → UriInfo
  client : Option (ℕ × ℕ) → Option (ℕ × ℕ) → UriInfo

abbrev pub end_or : ℕ → Option ℕ → ℕ
end_or end none = end
end_or end (some i) = i

-- The value behind a name: it ends at the next `&` or with the text.
unfoldable pub field_after : Bytes → Bytes → Option (ℕ × ℕ)
unfolding strcasestr strchr
field_after word text = elim (strcasestr text word) [
  | none ↦ none
  | some i ↦
      let beg = i + length word in
      some (beg, end_or (length text) (offset_by beg (strchr (drop beg text) b'&')))
]

unfoldable pub server_info : ℕ → Bytes → UriInfo
unfolding strcasestr atoi
server_info beg uri = elim (strcasestr (drop beg uri) sc_match2) [
  | none ↦ server beg none
  | some i ↦ server beg (some (beg + i, atoi (drop (beg + i + length sc_match2) uri)))
]

unfoldable pub client_info : Bytes → UriInfo
unfolding field_after
client_info uri = client (field_after sc_match3 uri) (field_after sc_match4 uri)

unfoldable pub get_uri_info : ℕ → Bytes → UriInfo
unfolding strcasestr server_info client_info
get_uri_info verb uri = elim (strcasestr uri sc_match1) [
  | none ↦ client_info uri
  | some i ↦ if verb == http_post then server_info (i + length sc_match1) uri else client_info uri
]
