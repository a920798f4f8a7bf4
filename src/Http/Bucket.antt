-- ===== src/Http/Bucket.antt =====
-- The rate-limit bucket of a request, in `Client::request` of v_exchanges_api_generics/src/http.rs.
pub mod Shape
use v_exchanges.Prelude.{
  ℕ, ◌-◌, Option, none, some, ◌++◌, Text, codes, split, length, get_elem?, if◌then◌else◌, ltb,
}

-- `parts.len().checked_sub(2).map(|i| parts[i])` over the host's labels.
unfoldable pub exchange_label : Text → Option Text
exchange_label host =
    let parts = split b'.' host in
    if ltb (length parts) 2 then none else get_elem? parts (length parts - 2)

-- The three forms of the name.
unfoldable pub bucket_name : Option Text → Option Text → Text
bucket_name (some ex) (some kn) = codes "ip." ++ (ex ++ (codes "." ++ kn))
bucket_name (some ex) none = codes "ip." ++ ex
bucket_name none _ = codes "ip"

-- The bucket of a host and of the handler's key name.
unfoldable pub bucket : Option Text → Option Text → Text
unfolding exchange_label bucket_name
bucket none key_name = bucket_name none key_name
bucket (some host) key_name = bucket_name (exchange_label host) key_name
