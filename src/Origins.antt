-- ===== src/Origins.antt =====
-- Where the values of the program come from: every message, TLV and WSC message that its public
-- methods can make from 16-bit words and bytes, in any combination.
pub mod Types
use ieee.Prelude.{ℕ, ◌≡◌, All, IsByte, IsU16, List, some}
use ieee.Result.{ok}
use ieee.Tlv
use ieee.Tlv.{Tlv, get_value}
use ieee.Cmdu
use ieee.Cmdu.{Cmdu, add_tlv, find_tlv}
use ieee.Parser.{parse}
use ieee.Wsc
use ieee.Wsc.{WscMessage, add_attribute, from_raw, to_tlv}

mutual
  -- A message: by its constructor, by `AddTlv`, or by `Parse` from any bytes.
  pub data IsMessage : Cmdu → Type 0 where
    new :
        (type id flags fragment_id : ℕ)
        → IsU16 type
        → IsU16 id
        → IsByte flags
        → IsByte fragment_id
        → IsMessage (Cmdu.make type id flags fragment_id)
    added : {t : Tlv} {c : Cmdu} → IsTlv t → IsMessage c → IsMessage (add_tlv t c)
    parsed : (buffer : List ℕ) {c : Cmdu} → All IsByte buffer → parse buffer ≡ ok c → IsMessage c

  -- A TLV: by its constructors, by `FindTlv` in a message, or by `ToTlv`.
  pub data IsTlv : Tlv → Type 0 where
    make :
        (type : ℕ) (value : List ℕ) {t : Tlv}
        → IsByte type
        → All IsByte value
        → Tlv.make type value ≡ ok t
        → IsTlv t
    found : (type : ℕ) {c : Cmdu} {t : Tlv} → IsMessage c → find_tlv type c ≡ some t → IsTlv t
    carrier : {m : WscMessage} {t : Tlv} → IsWsc m → to_tlv m ≡ ok t → IsTlv t

  -- A WSC message: by its default constructor, by `AddAttribute`, or from the value of a TLV.
  pub data IsWsc : WscMessage → Type 0 where
    empty : IsWsc Wsc.make
    set :
        (type : ℕ) (value : List ℕ) {m m' : WscMessage}
        → IsU16 type
        → All IsByte value
        → IsWsc m
        → add_attribute type value m ≡ ok m'
        → IsWsc m'
    content : {t : Tlv} {m : WscMessage} → IsTlv t → from_raw (get_value t) ≡ ok m → IsWsc m
