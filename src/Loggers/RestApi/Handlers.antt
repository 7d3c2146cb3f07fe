-- ===== src/Loggers/RestApi/Handlers.antt =====
-- The handlers of loggers/restapi.go. `r.BasicAuth`, the parsed query and the JSON encoder are net/http's
-- and encoding/json's: a request holds what they return, and a reply the value that is encoded, without
-- the header that names its content type.
use go_dns_collector.Base.{
  ℕ, String, ◌≡◌, Bool, false, ◌&&◌, Option, none, some, List, [], ◌∷◌, arith, str_eq, ◌==◌,
  if◌then◌else◌, length, Bytes, string_key, bytes_key, find,
}
use go_dns_collector.Message.{Suspicious}
use go_dns_collector.Loggers.Top.{TopMap}
use go_dns_collector.Loggers.RestApi.{RestApi, SearchBy, HitsRecord}

pub record Credentials : Type 0 where
  pub basic_auth_login : String
  pub basic_auth_pwd : String

pub record Request : Type 0 where
  pub basic_auth : Option (String × String)
  pub method : String
  pub path : String
  pub stream_id : List String
  pub query_ip : List String
  pub query_name : List Bytes

pub data Shown : Type 0 where
  top_list : List (Bytes × ℕ) → Shown
  by_name : List (Bytes × ℕ) → Shown
  by_text : List (String × ℕ) → Shown
  suspicious_names : List (Bytes × Suspicious) → Shown
  names_of_client : HitsRecord Bytes → Shown
  clients_of_name : HitsRecord String → Shown

-- `http.Error`, a JSON value, and a number as text.
pub data Reply : Type 0 where
  error_reply : String → ℕ → Reply
  encoded : Shown → Reply
  written : ℕ → Reply

abbrev pub not_authorized : Reply
not_authorized = error_reply "Not authorized" 401

abbrev pub not_allowed : Reply
not_allowed = error_reply "Method not allowed" 405

abbrev pub not_allowed_here : Reply
not_allowed_here = error_reply "{\"error\": \"Method not allowed\"}" 405

abbrev pub missing : Reply
missing = error_reply "Arguments are missing" 400

abbrev pub no_stream : Reply
no_stream = error_reply "{\"error\": \"Stream ID not Found\"}" 404

abbrev pub no_ip : Reply
no_ip = error_reply "{\"error\": \"Query IP not found\"}" 404

abbrev pub no_name : Reply
no_name = error_reply "{\"error\": \"Query Name not found\"}" 404

abbrev pub is_authorized : Credentials → Option (String × String) → Bool
is_authorized c none = false
is_authorized c (some (login, password)) =
    str_eq login c.basic_auth_login && str_eq password c.basic_auth_pwd

-- BasicAuth
unfoldable pub basic_auth : Credentials → Request → Bool
basic_auth c r = is_authorized c r.basic_auth

-- What the handlers but GetSearchHandler do alike, for what each of them encodes.
unfoldable pub get : Credentials → Request → Shown → List Reply
unfolding basic_auth
get c r shown =
    if basic_auth c r
    then (if str_eq r.method "GET" then encoded shown ∷ [] else not_allowed ∷ [])
    else not_authorized ∷ []

abbrev pub show_pair : Option ℕ → Reply
show_pair none = no_name
show_pair (some n) = written n

abbrev pub show_names_of : Bytes → Option (HitsRecord Bytes) → Reply
show_names_of name none = no_ip
show_names_of name (some client) = show_pair (find name client.hits)

abbrev pub show_client : Option (HitsRecord Bytes) → Reply
show_client none = no_ip
show_client (some client) = encoded (names_of_client client)

abbrev pub show_domain : Option (HitsRecord String) → Reply
show_domain none = no_name
show_domain (some domain) = encoded (clients_of_name domain)

unfoldable pub search_in : List String → List Bytes → SearchBy → List Reply
search_in (ip ∷ []) (name ∷ []) stream = show_names_of name (find ip stream.clients) ∷ []
search_in (ip ∷ []) [] stream = show_client (find ip stream.clients) ∷ []
search_in (ip ∷ []) (x ∷ y ∷ ys) stream = show_client (find ip stream.clients) ∷ []
search_in [] (name ∷ []) stream = show_domain (find name stream.domains) ∷ []
search_in (x ∷ y ∷ ys) (name ∷ []) stream = show_domain (find name stream.domains) ∷ []
search_in [] [] stream = []
search_in [] (x ∷ y ∷ ys) stream = []
search_in (x ∷ y ∷ ys) [] stream = []
search_in (x ∷ y ∷ ys) (z ∷ t ∷ ts) stream = []

abbrev pub search_stream : List String → List Bytes → Option SearchBy → List Reply
unfolding search_in
search_stream ips names none = no_stream ∷ []
search_stream ips names (some stream) = search_in ips names stream

-- The arguments that are missing are told, and the search goes on.
unfoldable pub search : Request → List (String × SearchBy) → List String → List Reply
unfolding search_in
search r streams (id ∷ []) = search_stream r.query_ip r.query_name (find id streams)
search r streams [] =
    if (length r.query_ip == 0) && (length r.query_name == 0) then missing ∷ [] else []
search r streams (x ∷ y ∷ ys) = []

module _ {Top : Type 0} (top : TopMap Top) where
  -- GetSearchHandler
  unfoldable pub get_search : Credentials → Request → RestApi Top → List Reply
  unfolding basic_auth search
  get_search c r s =
      if basic_auth c r
      then (if str_eq r.method "GET"
          then search r s.hits_stream r.stream_id
          else not_allowed_here ∷ [])
      else not_authorized ∷ []

  -- The handlers that show a table or a top list, by the names of the methods.
  abbrev pub get_tlds : Credentials → Request → RestApi Top → List Reply
  get_tlds c r s = get c r (by_name s.hits_uniq.public_suffixes)

  abbrev pub get_top_tlds : Credentials → Request → RestApi Top → List Reply
  get_top_tlds c r s = get c r (top_list (top.get s.top_tlds))

  abbrev pub get_streams : Credentials → Request → RestApi Top → List Reply
  get_streams c r s = get c r (by_text s.streams)

  abbrev pub get_clients : Credentials → Request → RestApi Top → List Reply
  get_clients c r s = get c r (by_text s.hits_uniq.clients)

  abbrev pub get_top_clients : Credentials → Request → RestApi Top → List Reply
  get_top_clients c r s = get c r (top_list (top.get s.top_clients))

  abbrev pub get_domains : Credentials → Request → RestApi Top → List Reply
  get_domains c r s = get c r (by_name s.hits_uniq.domains)

  abbrev pub get_top_domains : Credentials → Request → RestApi Top → List Reply
  get_top_domains c r s = get c r (top_list (top.get s.top_qnames))

  abbrev pub get_nx_domains : Credentials → Request → RestApi Top → List Reply
  get_nx_domains c r s = get c r (by_name s.hits_uniq.nx_domains)

  abbrev pub get_top_nx_domains : Credentials → Request → RestApi Top → List Reply
  get_top_nx_domains c r s = get c r (top_list (top.get s.top_non_existent))

  abbrev pub get_sf_domains : Credentials → Request → RestApi Top → List Reply
  get_sf_domains c r s = get c r (by_name s.hits_uniq.sf_domains)

  abbrev pub get_top_sf_domains : Credentials → Request → RestApi Top → List Reply
  get_top_sf_domains c r s = get c r (top_list (top.get s.top_serv_fail))

  abbrev pub get_suspicious : Credentials → Request → RestApi Top → List Reply
  get_suspicious c r s = get c r (suspicious_names s.hits_uniq.suspicious)

  -- The routes of ListenAndServe.
  abbrev pub routes : Credentials → Request → RestApi Top → List (String × List Reply)
  unfolding get get_search
  routes c r s =
      ("/tlds", get_tlds c r s)
      ∷ ("/tlds/top", get_top_tlds c r s)
      ∷ ("/streams", get_streams c r s)
      ∷ ("/clients", get_clients c r s)
      ∷ ("/clients/top", get_top_clients c r s)
      ∷ ("/domains", get_domains c r s)
      ∷ ("/domains/top", get_top_domains c r s)
      ∷ ("/domains/nx", get_nx_domains c r s)
      ∷ ("/domains/nx/top", get_top_nx_domains c r s)
      ∷ ("/domains/servfail", get_sf_domains c r s)
      ∷ ("/domains/servfail/top", get_top_sf_domains c r s)
      ∷ ("/suspicious", get_suspicious c r s)
      ∷ ("/search", get_search c r s)
      ∷ []

  -- A request for one of the paths; any other path is net/http's to answer.
  unfoldable pub serve : Credentials → Request → RestApi Top → Option (List Reply)
  unfolding find
  serve c r s = find r.path (routes c r s)

  -- A request whose login or password is wrong, or that is not a GET, gets on every path a reply that
  -- does not depend on what the logger has recorded.
  pub serve-same :
      (c : Credentials) (r : Request) (s t : RestApi Top)
      → ((basic_auth c r && str_eq r.method "GET") ≡ false)
      → serve c r s ≡ serve c r t
  unfolding serve get get_search
  serve-same c r s t h = ground arith
