-- ===== src/Tests/Tables.antt =====
-- The theorems on the tables of connections and on ini files at concrete contents.
use https_proxy_server.Base.{
  Bytes, ◌≡◌, true, ◌&&◌, refl, [], ◌∷◌, none, some, if◌then◌else◌, codes,
}
use https_proxy_server.Http.Parser.Types.{HeaderMap, bytes_eq, find}
use https_proxy_server.Connection.Output.{idle_server}
use https_proxy_server.Connection.Tables.{Infos, ClientTable, ServerTable, get_client, get_idle}
use https_proxy_server.Connection.Tables.Clients.{IsTable}
use https_proxy_server.Connection.Tables.Idle.{IsIdleOf, get_idle-IsIdleOf}
use https_proxy_server.IniFile.{trim, Sections, get_value_string, set_value_string}
use https_proxy_server.Cstring.{is_space}
use https_proxy_server.IniFile.Parse.{parsecontent}
use https_proxy_server.IniFile.Parse.Printed.{print_section, parsecontent-print_section}
use https_proxy_server.IniFile.Values.{value_at, get_value_string-set_value_string}

abbrev clients : ClientTable
clients = (5, 100) ∷ (6, 101) ∷ []

clients-IsTable : IsTable clients
unfolding get_client
clients-IsTable = (refl, (refl, tt))

abbrev servers : ServerTable
servers = (codes "cam1", 200) ∷ (codes "cam2", 201) ∷ []

abbrev infos : Infos
infos a = record {
  sock = 7;
  dev_id = codes "cam2";
  type = idle_server;
  host = some 0;
  other = none;
}

get_idle-IsIdleOf_example :
    IsIdleOf servers
      (codes "cam2")
      infos
      (get_idle servers (codes "cam2") infos).0
      (get_idle servers (codes "cam2") infos).1
get_idle-IsIdleOf_example = get_idle-IsIdleOf servers (codes "cam2") infos

abbrev entries : HeaderMap
entries = (codes "port", codes "80") ∷ (codes "ip", codes "10.0.0.1") ∷ []

parsecontent-print_section_example :
    (datas : Sections) × (parsecontent (print_section (codes "server") entries) [] ≡ some datas)
    × ((key : Bytes) → value_at (codes "server") key datas ≡ find key entries)
unfolding is_space
parsecontent-print_section_example =
    parsecontent-print_section b's' (codes "erver") entries refl refl

abbrev settings : Sections
settings = (codes "server", (codes "port", codes "80") ∷ []) ∷ []

get_value_string-set_value_string_example :
    get_value_string
      (codes "server")
      (codes "port")
      []
      (set_value_string (codes "server ") (codes "port") (codes " 81") settings)
    ≡ (if bytes_eq (trim (codes "server ")) (trim (codes "server"))
          && bytes_eq (trim (codes "port")) (trim (codes "port"))
        then (true, trim (codes " 81"))
        else get_value_string (codes "server") (codes "port") [] settings)
get_value_string-set_value_string_example =
    get_value_string-set_value_string (codes "server ") (codes "port") (codes " 81")
      (codes "server") (codes "port") [] settings
