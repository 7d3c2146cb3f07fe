-- ===== src/Loggers/RestApi/Step.antt =====
-- One more message in the stream tables of loggers/restapi.go.
use go_dns_collector.Base.{
  ℕ, ◌+◌, String, ◌≡◌, refl, ap, ◌∙◌, inl, inr, Bool, true, false, ◌&&◌, ◌||◌, Option, none, some,
  List, [], arith, str_eq, eq_iff, ◌==◌, if◌then◌else◌, Bool-cases, Bytes, bytes_eq, Key,
  string_key, bytes_key, value_or, is_some, find, adjust, find-adjust, hit,
}
use go_dns_collector.Loggers.RestApi.{
  SearchBy, HitsRecord, no_hits, no_search, hit_record, hit_search,
}

-- A counter that is there once it has counted.
abbrev pub seen : ℕ → Option ℕ
seen n = if n == 0 then none else some n

-- One more message for a counter, when it passes the test.
abbrev pub counted : Bool → Option ℕ → Option ℕ
counted true c = some (value_or 0 c + 1)
counted false c = c

-- What the tables of a stream say of it, of a client or a name, and of both.
abbrev pub clients_of : Option SearchBy → List (String × HitsRecord Bytes)
clients_of none = []
clients_of (some stream) = stream.clients

abbrev pub domains_of : Option SearchBy → List (Bytes × HitsRecord String)
domains_of none = []
domains_of (some stream) = stream.domains

abbrev pub total_of : {K : Type 0} → Option (HitsRecord K) → Option ℕ
total_of none = none
total_of (some r) = some r.total_hits

abbrev pub hits_in : {K : Type 0} → Option (HitsRecord K) → List (K × ℕ)
hits_in none = []
hits_in (some r) = r.hits

and_comm : (a b : Bool) → (a && b) ≡ (b && a)
and_comm a b = ground arith

pub or_false : (a : Bool) → (a || false) ≡ a
or_false a = ground arith

pub counted-seen : (b : Bool) (n : ℕ) → counted b (seen n) ≡ seen ((if b then 1 else 0) + n)
counted-seen true n = ground arith
counted-seen false n = ap seen (omega arith)

total_or :
    {K : Type 0} (o : Option (HitsRecord K))
    → (value_or no_hits o).total_hits ≡ value_or 0 (total_of o)
total_or none = refl
total_or (some r) = refl

hits_or : {K : Type 0} (o : Option (HitsRecord K)) → (value_or no_hits o).hits ≡ hits_in o
hits_or none = refl
hits_or (some r) = refl

clients_or : (o : Option SearchBy) → (value_or no_search o).clients ≡ clients_of o
clients_or none = refl
clients_or (some stream) = refl

domains_or : (o : Option SearchBy) → (value_or no_search o).domains ≡ domains_of o
domains_or none = refl
domains_or (some stream) = refl

find-hit :
    {K : Type 0} ⦃key : Key K⦄ (j k : K) (m : List (K × ℕ))
    → find j (hit k m) ≡ counted (key.same k j) (find j m)
unfolding hit
find-hit ⦃key⦄ j k m = rw (find-adjust j k 0 (λ n. n + 1) m) (elim (Bool-cases (key.same k j)) [
  | inl e ↦ rw e (ap (λ i. some (value_or 0 (find i m) + 1)) ((key.same_iff k j).0 e))
  | inr e ↦ rw e refl
])

-- One more hit of a record, seen by its total and by one of its keys.
module _ {J K : Type 0} ⦃jkey : Key J⦄ ⦃kkey : Key K⦄ where
  total_of-adjust :
      (a b : J) (k : K) (c : List (J × HitsRecord K))
      → total_of (find a (adjust b no_hits (hit_record k) c))
        ≡ counted (jkey.same b a) (total_of (find a c))
  unfolding hit_record
  total_of-adjust a b k c =
      rw (find-adjust a b no_hits (hit_record k) c) (elim (Bool-cases (jkey.same b a)) [
        | inl e ↦ rw e (
            ap (λ i. some ((value_or no_hits (find i c)).total_hits + 1)) ((jkey.same_iff b a).0 e)
            ∙ ap some (ap (λ h. h + 1) (total_or (find a c))))
        | inr e ↦ rw e refl
      ])

  hits_in-adjust :
      (a b : J) (k : K) (c : List (J × HitsRecord K))
      → hits_in (find a (adjust b no_hits (hit_record k) c))
        ≡ (if jkey.same b a then hit k (hits_in (find a c)) else hits_in (find a c))
  unfolding hit_record
  hits_in-adjust a b k c =
      rw (find-adjust a b no_hits (hit_record k) c) (elim (Bool-cases (jkey.same b a)) [
        | inl e ↦ rw e (
            ap (λ i. hit k (value_or no_hits (find i c)).hits) ((jkey.same_iff b a).0 e)
            ∙ ap (hit k) (hits_or (find a c)))
        | inr e ↦ rw e refl
      ])

  find-hits_in-adjust :
      (a b : J) (j k : K) (c : List (J × HitsRecord K))
      → find j (hits_in (find a (adjust b no_hits (hit_record k) c)))
        ≡ counted (jkey.same b a && kkey.same k j) (find j (hits_in (find a c)))
  unfolding hit
  find-hits_in-adjust a b j k c = rw (hits_in-adjust a b k c) (elim (Bool-cases (jkey.same b a)) [
    | inl e ↦ rw e (find-hit j k (hits_in (find a c)))
    | inr e ↦ rw e refl
  ])

clients_of-adjust :
    (a b ip : String) (name : Bytes) (m : List (String × SearchBy))
    → clients_of (find a (adjust b no_search (hit_search ip name) m)) ≡ (
        if str_eq b a
        then adjust ip no_hits (hit_record name) (clients_of (find a m))
        else clients_of (find a m))
unfolding hit_search
clients_of-adjust a b ip name m =
    rw (find-adjust a b no_search (hit_search ip name) m) (elim (Bool-cases (str_eq b a)) [
      | inl e ↦ rw e (
          ap (λ i. adjust ip no_hits (hit_record name) (value_or no_search (find i m)).clients)
            ((eq_iff b a).0 e)
          ∙ ap (adjust ip no_hits (hit_record name)) (clients_or (find a m)))
      | inr e ↦ rw e refl
    ])

domains_of-adjust :
    (a b ip : String) (name : Bytes) (m : List (String × SearchBy))
    → domains_of (find a (adjust b no_search (hit_search ip name) m)) ≡ (
        if str_eq b a
        then adjust name no_hits (hit_record ip) (domains_of (find a m))
        else domains_of (find a m))
unfolding hit_search
domains_of-adjust a b ip name m =
    rw (find-adjust a b no_search (hit_search ip name) m) (elim (Bool-cases (str_eq b a)) [
      | inl e ↦ rw e (
          ap (λ i. adjust name no_hits (hit_record ip) (value_or no_search (find i m)).domains)
            ((eq_iff b a).0 e)
          ∙ ap (adjust name no_hits (hit_record ip)) (domains_or (find a m)))
      | inr e ↦ rw e refl
    ])

-- One more message of the stream `b`, seen by a client's total, a name's, and by both.
module _ (a b : String) (ip : String) (name : Bytes) (m : List (String × SearchBy)) where
  abbrev stepped : Option SearchBy
  stepped = find a (adjust b no_search (hit_search ip name) m)

  pub client-step :
      (j : String)
      → total_of (find j (clients_of stepped))
        ≡ counted (str_eq b a && str_eq ip j) (total_of (find j (clients_of (find a m))))
  client-step j = rw (clients_of-adjust a b ip name m) (elim (Bool-cases (str_eq b a)) [
    | inl e ↦ rw e (total_of-adjust j ip name (clients_of (find a m)))
    | inr e ↦ rw e refl
  ])

  pub domain-step :
      (k : Bytes)
      → total_of (find k (domains_of stepped))
        ≡ counted (str_eq b a && bytes_eq name k) (total_of (find k (domains_of (find a m))))
  domain-step k = rw (domains_of-adjust a b ip name m) (elim (Bool-cases (str_eq b a)) [
    | inl e ↦ rw e (total_of-adjust k name ip (domains_of (find a m)))
    | inr e ↦ rw e refl
  ])

  pub name_of_client-step :
      (j : String) (k : Bytes)
      → find k (hits_in (find j (clients_of stepped)))
        ≡ counted
            (str_eq b a && (str_eq ip j && bytes_eq name k))
            (find k (hits_in (find j (clients_of (find a m)))))
  name_of_client-step j k = rw (clients_of-adjust a b ip name m) (elim (Bool-cases (str_eq b a)) [
    | inl e ↦ rw e (find-hits_in-adjust j ip k name (clients_of (find a m)))
    | inr e ↦ rw e refl
  ])

  pub client_of_name-step :
      (j : String) (k : Bytes)
      → find j (hits_in (find k (domains_of stepped)))
        ≡ counted
            (str_eq b a && (str_eq ip j && bytes_eq name k))
            (find j (hits_in (find k (domains_of (find a m)))))
  client_of_name-step j k = rw (domains_of-adjust a b ip name m) (elim (Bool-cases (str_eq b a)) [
    | inl e ↦ rw e (
        find-hits_in-adjust k name j ip (domains_of (find a m))
        ∙ ap (λ x. counted x (find j (hits_in (find k (domains_of (find a m))))))
            (and_comm (bytes_eq name k) (str_eq ip j)))
    | inr e ↦ rw e refl
  ])

  pub stream-step : is_some stepped ≡ (str_eq b a || is_some (find a m))
  stream-step =
      rw (find-adjust a b no_search (hit_search ip name) m)
        (elim (Bool-cases (str_eq b a)) [ inl e ↦ rw e refl | inr e ↦ rw e refl ])
