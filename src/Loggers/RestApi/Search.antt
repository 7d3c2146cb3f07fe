-- ===== src/Loggers/RestApi/Search.antt =====
-- GetSearchHandler of loggers/restapi.go, as an answer about the messages recorded.
use go_dns_collector.Base.{
  ℕ, String, ◌≡◌, refl, ◌∙◌, true, not, Option, none, some, List, [], ◌∷◌, arith, ◌==◌,
  if◌then◌else◌, Bytes, string_key, bytes_key, is_some, find,
}
use go_dns_collector.Message.{DnsMessage}
use go_dns_collector.Loggers.Top.{TopMap}
use go_dns_collector.Loggers.RestApi.{RestApi, SearchBy, HitsRecord, new_rest_api, record_all}
use go_dns_collector.Loggers.RestApi.Handlers.{
  Credentials, Request, Reply, written, no_stream, no_ip, no_name, basic_auth, show_pair,
  show_names_of, search_in, search_stream, search, get_search,
}
use go_dns_collector.Loggers.RestApi.Counts.{count, from_stream}
use go_dns_collector.Loggers.RestApi.Step.{seen, clients_of, total_of, hits_in}
use go_dns_collector.Loggers.RestApi.Tables.{of_client, of_pair, Tables, record_all-Tables}

-- The answer for a stream, a client and a name, by counting messages.
abbrev pub answer : List DnsMessage → String → String → Bytes → Reply
answer dms id ip name =
    if count (from_stream id) dms == 0
    then no_stream
    else if count (of_client id ip) dms == 0
    then no_ip
    else if count (of_pair id ip name) dms == 0
    then no_name
    else written (count (of_pair id ip name) dms)

show_seen : (n : ℕ) → show_pair (seen n) ≡ (if n == 0 then no_name else written n)
show_seen n = ground arith

known_seen : (n : ℕ) → is_some (seen n) ≡ not (n == 0)
known_seen n = ground arith

known_total : {K : Type 0} (o : Option (HitsRecord K)) → is_some o ≡ is_some (total_of o)
known_total none = refl
known_total (some r) = refl

-- The search, by what the tables say of the stream, of the client, and of the pair.
client_answer :
    (name : Bytes) (o : Option (HitsRecord Bytes))
    → show_names_of name o ≡ (if is_some o then show_pair (find name (hits_in o)) else no_ip)
client_answer name none = refl
client_answer name (some client) = refl

stream_answer :
    (ip : String) (name : Bytes) (o : Option SearchBy)
    → search_stream (ip ∷ []) (name ∷ []) o
      ≡ (if is_some o then show_names_of name (find ip (clients_of o)) else no_stream) ∷ []
unfolding search_in
stream_answer ip name none = refl
stream_answer ip name (some stream) = refl

module _ {Top : Type 0} (top : TopMap Top) where
  search_stream-answer :
      (dms : List DnsMessage) (s : RestApi Top)
      → Tables top dms s
      → (id ip : String) (name : Bytes)
      → search_stream (ip ∷ []) (name ∷ []) (find id s.hits_stream) ≡ answer dms id ip name ∷ []
  search_stream-answer dms s h id ip name =
      let stream = find id s.hits_stream in
      let client = find ip (clients_of stream) in
      stream_answer ip name stream
      ∙ rw (h.stream id) (
          rw (client_answer name client) (
            rw (known_total client) (
              rw (h.client id ip) (
                rw (known_seen (count (of_client id ip) dms)) (
                  rw (h.name_of_client id ip name)
                    (rw (show_seen (count (of_pair id ip name) dms)) (ground arith)))))))

  -- For an authorized GET with one stream, one client and one name, the search answers with the number
  -- of recorded messages of the three, or says which of stream, client and name no message had: the
  -- answer is the one that counting the messages gives.
  pub get_search-answer :
      (c : Credentials) (r : Request) (dms : List DnsMessage) (n : ℕ) (id ip : String)
      (name : Bytes)
      → basic_auth c r ≡ true
      → r.method ≡ "GET"
      → r.stream_id ≡ id ∷ []
      → r.query_ip ≡ ip ∷ []
      → r.query_name ≡ name ∷ []
      → get_search top c r (record_all top dms (new_rest_api top n)) ≡ answer dms id ip name ∷ []
  unfolding get_search search
  get_search-answer c r dms n id ip name auth method ids ips names = rw auth (
      rw method (
        rw ids (
          rw ips (
            rw names (
              search_stream-answer dms (record_all top dms (new_rest_api top n))
                (record_all-Tables top dms n) id ip name)))))
