-- ===== src/Message/Text/Writable.antt =====
-- When each of the functions behind the directives of a text writes something.
use go_dns_collector.Base.{
  String, Bool, true, false, Option, none, some, List, [], ◌∷◌, if◌then◌else◌, ℤ, pos, negsuc,
  Bytes, codes, bytes_eq, Outcome, ok, err, panic, string_key, bytes_key,
}
use go_dns_collector.Message.{DnsGeo, PowerDns, Suspicious, PublicSuffix}
use go_dns_collector.Message.Text.{
  Formats, Fatal, indexed, tags_text, pdns_text, geoip_text, suspicious_text, public_suffix_text,
}

abbrev pub IsOk : {E A : Type 0} → Outcome E A → Type 0
IsOk (ok a) = Unit
IsOk (err e) = ⊥
IsOk (panic c) = ⊥

-- Atoi reads every argument of a tag directive as a number from 0.
abbrev pub IsIndex : Option ℤ → Type 0
IsIndex none = ⊥
IsIndex (some (pos n)) = Unit
IsIndex (some (negsuc n)) = ⊥

abbrev pub ArgIndex : Formats → Option Bytes → Type 0
ArgIndex lib none = Unit
ArgIndex lib (some arg) = IsIndex (lib.atoi arg)

-- Of the directives of PowerDNS, that of the tags reads its argument as a number.
abbrev pub TagIndex : Formats → Bool → Option Bytes → Type 0
TagIndex lib true arg = ArgIndex lib arg
TagIndex lib false arg = Unit

-- The suspicious part is there wherever the PowerDNS part is.
abbrev pub Scored : Option PowerDns → Option Suspicious → Type 0
Scored none s = Unit
Scored (some p) none = ⊥
Scored (some p) (some s) = Unit

abbrev pub tags_directive : Bytes
tags_directive = codes "powerdns-tags"

module _ (lib : Formats) where
  pub indexed-IsOk :
      (arg : Bytes) (tags : List String) (o : Option ℤ) → IsIndex o → IsOk (indexed lib arg tags o)
  indexed-IsOk arg tags none h = h
  indexed-IsOk arg tags (some (pos n)) h = tt
  indexed-IsOk arg tags (some (negsuc n)) h = h

  pub tags_text-IsOk :
      (arg : Option Bytes) (tags : List String) → ArgIndex lib arg → IsOk (tags_text lib arg tags)
  tags_text-IsOk none [] h = tt
  tags_text-IsOk (some arg) [] h = tt
  tags_text-IsOk none (t ∷ ts) h = tt
  tags_text-IsOk (some arg) (t ∷ ts) h = indexed-IsOk arg (t ∷ ts) (lib.atoi arg) h

  pub if_IsOk :
      {A : Type 0} (b : Bool) (x y : Outcome Fatal A) → IsOk x → IsOk y → IsOk (if b then x else y)
  if_IsOk true x y h k = h
  if_IsOk false x y h k = k

  tags_or :
      (b : Bool) (arg : Option Bytes) (tags : List String) (y : Outcome Fatal Bytes)
      → TagIndex lib b arg
      → IsOk y
      → IsOk (if b then tags_text lib arg tags else y)
  tags_or true arg tags y h k = tags_text-IsOk arg tags h
  tags_or false arg tags y h k = k

  pub pdns_text-IsOk :
      (d : Bytes) (arg : Option Bytes) (o : Option PowerDns)
      → TagIndex lib (bytes_eq d tags_directive) arg
      → IsOk (pdns_text lib d arg o)
  unfolding pdns_text
  pdns_text-IsOk d arg none h = tt
  pdns_text-IsOk d arg (some p) h = tags_or (bytes_eq d tags_directive) arg p.tags _ h (
      if_IsOk (bytes_eq d (codes "powerdns-applied-policy")) _ _ tt (
        if_IsOk (bytes_eq d (codes "powerdns-original-request-subnet")) _ _ tt
          (if_IsOk (bytes_eq d (codes "powerdns-metadata")) _ _ tt tt)))

  pub geoip_text-IsOk : (d : Bytes) (o : Option DnsGeo) → IsOk (geoip_text lib d o)
  unfolding geoip_text
  geoip_text-IsOk d none = tt
  geoip_text-IsOk d (some g) = if_IsOk (bytes_eq d (codes "geoip-continent")) _ _ tt (
      if_IsOk (bytes_eq d (codes "geoip-country")) _ _ tt (
        if_IsOk (bytes_eq d (codes "geoip-city")) _ _ tt (
          if_IsOk (bytes_eq d (codes "geoip-as-number")) _ _ tt
            (if_IsOk (bytes_eq d (codes "geoip-as-owner")) _ _ tt tt))))

  pub suspicious_text-IsOk :
      (d : Bytes) (o : Option PowerDns) (s : Option Suspicious)
      → Scored o s
      → IsOk (suspicious_text lib d o s)
  unfolding suspicious_text
  suspicious_text-IsOk d none s h = tt
  suspicious_text-IsOk d (some p) none h = absurd h
  suspicious_text-IsOk d (some p) (some s) h =
      if_IsOk (bytes_eq d (codes "suspicious-score")) _ _ tt tt

  pub public_suffix_text-IsOk :
      (d : Bytes) (o : Option PublicSuffix) → IsOk (public_suffix_text lib d o)
  unfolding public_suffix_text
  public_suffix_text-IsOk d none = tt
  public_suffix_text-IsOk d (some s) =
      if_IsOk (bytes_eq d (codes "publixsuffix-tld")) _ _ tt
        (if_IsOk (bytes_eq d (codes "publixsuffix-etld+1")) _ _ tt tt)
