-- ===== src/Database.antt =====
-- pkg/db/database_config.go and pkg/db/database.go: what describes a database, and the connection
-- string. Maps are association lists, in the order in which Go happens to iterate over them.
pub mod Decimal
pub mod Sorting
pub mod Connection
use integresql.Prelude.{
  ℕ, ◌+◌, ℤ, pos, negsuc, Text, codes, text_eq, Bool, true, false, List, [], ◌∷◌, ◌++◌, map,
  if◌then◌else◌, ltb,
}
use integresql.Prelude.Assoc.{Assoc, lookup, has_key, keys, lookup_or}
use Decimal.{decimal}
use Sorting.{sort}

pub record DatabaseConfig : Type 0 where
  pub host : Text
  pub port : ℤ
  pub username : Text
  pub password : Text
  pub database : Text
  pub additional_params : Assoc Text

pub record Database : Type 0 where
  pub template_hash : Text
  pub config : DatabaseConfig

pub record TestDatabase : Type 0 where
  pub database : Database
  pub open database use *
  pub id : ℕ

-- `%d`
unfoldable pub format_int : ℤ → Text
format_int (pos n) = decimal n
format_int (negsuc n) = b'-' ∷ decimal (n + 1)

-- One ` %s=%s` for each name.
pub write_params : Assoc Text → List Text → Text
write_params m [] = []
write_params m (p ∷ ps) = codes " " ++ p ++ codes "=" ++ lookup_or p [] m ++ write_params m ps

pub connection_string : DatabaseConfig → Text
unfolding format_int write_params
connection_string c =
    codes "host="
    ++ c.host
    ++ codes " port="
    ++ format_int c.port
    ++ codes " user="
    ++ c.username
    ++ codes " password="
    ++ c.password
    ++ codes " dbname="
    ++ c.database
    ++ (if has_key (codes "sslmode") c.additional_params then [] else codes " sslmode=disable")
    ++ write_params c.additional_params (sort (keys c.additional_params))
