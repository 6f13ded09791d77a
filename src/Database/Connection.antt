-- ===== src/Database/Connection.antt =====
-- Laws of the connection string.
use mathlib.Core.List.{Perm, Permᴰ}
use mathlib.Core.Logic.{∥∥₁_elim}
use integresql.Prelude.{◌≡◌, refl, Text, codes, List, [], ◌∷◌}
use integresql.Prelude.Assoc.{Assoc, keys}
use integresql.Prelude.Assoc.Order.{IsMap, has_key-permᴰ, lookup_or-permᴰ, keys-permᴰ}
use integresql.Database.Sorting.{sort, sort-permᴰ}
use integresql.Database.{DatabaseConfig, write_params, connection_string}

write_params-permᴰ :
    {m n : Assoc Text} (ps : List Text)
    → Permᴰ m n
    → IsMap m
    → write_params m ps ≡ write_params n ps
unfolding write_params
write_params-permᴰ [] p h = refl
write_params-permᴰ (q ∷ ps) p h = cc (lookup_or-permᴰ q [] p h, write_params-permᴰ ps p h)

Text-set : IsSet Text
Text-set = hlevel

connection_string-permᴰ :
    (c : DatabaseConfig) {n : Assoc Text}
    → IsMap c.additional_params
    → Permᴰ c.additional_params n
    → connection_string c ≡ connection_string (record c { additional_params = n })
unfolding connection_string
connection_string-permᴰ c {n} h p = cc (
  has_key-permᴰ (codes "sslmode") p,
  sort-permᴰ (keys-permᴰ p),
  write_params-permᴰ (sort (keys c.additional_params)) p h,
)

-- The connection string does not depend on the order in which Go iterates over the additional
-- parameters: for a map and any permutation of its entries it is the same text.
pub connection_string-perm :
    (c : DatabaseConfig) (n : Assoc Text)
    → IsMap c.additional_params
    → Perm c.additional_params n
    → connection_string c ≡ connection_string (record c { additional_params = n })
connection_string-perm c n h p = ∥∥₁_elim p (Text-set _ _) (connection_string-permᴰ c h)
