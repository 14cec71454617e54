-- ===== src/Tests/Partner.antt =====
-- The choice of a partner, and requests, at concrete connections.
use https_proxy_server.Base.{
  ℕ, Bool, Option, ◌&&◌, map, ◌≡◌, refl, ap, ◌∙◌, arith, Bool-cases, inl, inr, [], ◌∷◌, none, some,
  true, false, ◌==◌, if◌then◌else◌, Bytes, codes,
}
use https_proxy_server.Cstring.{until_nul, same_text, to_lower, skip_spaces, digits_value}
use https_proxy_server.Uri.{encode_uri}
use https_proxy_server.Uri.RoundTrip.{AreBytes}
use https_proxy_server.Http.Parser.FirstLine.{http_get, http_post}
use https_proxy_server.Http.Parser.Types.{bytes_eq, slice}
use https_proxy_server.Connection.Output.{client, idle_server, drained}
use https_proxy_server.Connection.Pairs.{Connection, Store, Matching}
use https_proxy_server.Connection.Pairs.Links.{other_of}
use https_proxy_server.Connection.Pairs.Match.{IsMatching}
use https_proxy_server.Connection.Tables.{Infos, ClientTable, get_client, remove_client, add_server}
use https_proxy_server.Connection.UriInfo.{ℤ, pos, negsuc, server, get_uri_info}
use https_proxy_server.Connection.UriInfo as UriInfo
use https_proxy_server.Connection.Partner.Ready.{Ready, set_idle, make_ready}
use https_proxy_server.Connection.Partner.{
  Choice, set_device, take_it, hand_over, find_client, same_device, match_client, match_sock,
  attach_to, perform,
}
use https_proxy_server.Connection.Partner.Chosen.{IsClientChoice, match_client-IsClientChoice}
use https_proxy_server.Connection.Partner.HandedOver.{
  IsView, match_sock-match_client, perform-IsMatching,
}
use https_proxy_server.Connection.Request.{handle_uri, ask_server, server_ready}
use https_proxy_server.Connection.Request.DeviceId.{handle_uri-ask_server, handle_uri-server_ready}
use https_proxy_server.Connection.Request.Bounds.{IsBounded, handle_uri-IsBounded}

-- A server's connection at 1 and a client's at 2, in the workers 10 and `host`.
abbrev infos_in : ℕ → Infos
infos_in host k =
    if k == 1
    then record { sock = 5; dev_id = codes "cam"; type = idle_server; host = some 10; other = none }
    else record { sock = 7; dev_id = codes "CAM"; type = client; host = some host; other = none }

abbrev clients : ClientTable
clients = (7, 2) ∷ []

match_client-IsClientChoice_example :
    IsClientChoice true clients
      (infos_in 10)
      1
      (pos 7)
      (match_client true clients (infos_in 10) 1 (pos 7))
match_client-IsClientChoice_example =
    match_client-IsClientChoice true clients (infos_in 10) 1 (pos 7)

handed : match_client true clients (infos_in 20) 1 (pos 7) ≡ hand_over 20 (pos 7) true
unfolding match_client find_client get_client
handed = refl

match_sock-match_client_example :
    match_sock true clients [] (attach_to 1 20 (infos_in 20)) 1 (pos 7)
    ≡ match_client true clients (attach_to 1 20 (infos_in 20)) 1 (pos 7)
match_sock-match_client_example =
    match_sock-match_client clients [] (infos_in 20) 1 (pos 7) (pos 7) 20 true true handed

taken : match_client true clients (infos_in 10) 1 (pos 7) ≡ take_it 2 true
unfolding match_client find_client get_client same_device same_text until_nul
taken = refl

-- The server's answer moves it between the tables, and then it takes the client.
abbrev is_taken : Option Ready → Bool
is_taken none = false
is_taken (some r) = bytes_eq (map (λ e. e.1) r.clients) (2 ∷ []) && is_choice r.choice
  where
    is_choice : Choice → Bool
    is_choice (take_it c is_client) = c == 2
    is_choice _ = false

made_ready :
    is_taken (make_ready true ((5, 1) ∷ clients) [] (infos_in 10) 1 (codes "cam") (pos 7)) ≡ true
unfolding make_ready remove_client set_idle set_device add_server match_client find_client
    get_client same_device same_text until_nul
made_ready = refl

-- With the connection missing from the table of clients, the assertion fails.
not_ready : is_taken (make_ready true clients [] (infos_in 10) 1 (codes "cam") (pos 7)) ≡ false
unfolding make_ready remove_client set_device
not_ready = refl

abbrev server_conn : Connection
server_conn = record {
  other = none;
  type = idle_server;
  close_flag = false;
  enable_read = true;
  timeout = false;
  data_break = false;
  out_empty = true;
}

abbrev client_conn : Connection
client_conn = record {
  other = none;
  type = client;
  close_flag = false;
  enable_read = true;
  timeout = true;
  data_break = false;
  out_empty = true;
}

abbrev conn_at : ℕ → Connection
conn_at k = if k == 1 then server_conn else client_conn

abbrev store : Store
store k = some (conn_at k)

abbrev callback_uri : Bytes
callback_uri = codes "/list?DeviceID=a%2Fb&callback=show"

abbrev answer_uri : Bytes
answer_uri = codes "/proxy/response?Ver=1&Cmd=2&DeviceID=a%2Fb&ConnectID=7"

handle_uri-IsBounded_example : IsBounded (handle_uri (codes "junk") none http_get callback_uri).1
handle_uri-IsBounded_example = handle_uri-IsBounded (codes "junk") none http_get callback_uri

no_other : (k : ℕ) → other_of store k ≡ none
no_other k = elim (Bool-cases (k == 1)) [ inl e ↦ rw e | inr e ↦ rw e ]

seen_other : (k : ℕ) → (infos_in 10 k).other ≡ (conn_at k).other
seen_other k = elim (Bool-cases (k == 1)) [ inl q ↦ rw q | inr q ↦ rw q ]

seen_type : (k : ℕ) → (infos_in 10 k).type ≡ (conn_at k).type
seen_type k = elim (Bool-cases (k == 1)) [ inl q ↦ rw q | inr q ↦ rw q ]

view : IsView (infos_in 10) store
view = record {
  other_is = λ k c e. let q : conn_at k ≡ c = cc in seen_other k ∙ ap (λ d. d.other) q;
  type_is = λ k c e. let q : conn_at k ≡ c = cc in seen_type k ∙ ap (λ d. d.type) q;
}

perform-IsMatching_example :
    (m : Matching) × (perform drained 1 store (take_it 2 true) ≡ some m) × IsMatching 1 2 store m
perform-IsMatching_example =
    perform-IsMatching true clients (infos_in 10) store 1 (pos 7) server_conn 2 true drained view
      (λ a b e. let n = no_other a in cc) (λ s k m. (conn_at k, refl)) refl refl taken

abbrev id : Bytes
id = codes "a/b"

id_bytes : AreBytes id
id_bytes = (omega arith, (omega arith, (omega arith, tt)))

client_info : get_uri_info http_get callback_uri ≡ UriInfo.client (some (15, 20)) (some (30, 34))
unfolding get_uri_info UriInfo.client_info UriInfo.field_after UriInfo.strcasestr UriInfo.strchr
    to_lower
client_info = refl

handle_uri-ask_server_example :
    handle_uri (codes "junk") none http_get callback_uri
    ≡ (some (codes "show"), ask_server id false)
unfolding encode_uri slice until_nul
handle_uri-ask_server_example =
    handle_uri-ask_server (codes "junk") http_get callback_uri id 15 20 (some (30, 34)) client_info
      refl id_bytes refl

-- The number of a socket wraps around to an `int`.
wrapped : UriInfo.atoi (codes "4294967303") ≡ pos 7
unfolding UriInfo.atoi UriInfo.strtol_digits UriInfo.to_int UriInfo.int_of_word skip_spaces
    digits_value
wrapped = refl

server_info : get_uri_info http_post answer_uri ≡ server 37 (some (42, pos 7))
unfolding get_uri_info UriInfo.server_info UriInfo.strcasestr UriInfo.atoi UriInfo.strtol_digits
    UriInfo.to_int UriInfo.int_of_word skip_spaces digits_value to_lower
server_info = refl

handle_uri-server_ready_example :
    handle_uri (codes "junk") none http_post answer_uri ≡ (none, server_ready id (pos 7))
unfolding encode_uri
handle_uri-server_ready_example =
    handle_uri-server_ready (codes "junk") http_post answer_uri id (codes "&ConnectID=7") 37 42
      (pos 7) server_info refl refl id_bytes refl
