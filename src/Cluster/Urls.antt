-- ===== src/Cluster/Urls.antt =====
-- agent/alert_handler.py: `strip_url_credentials`. The parsing of URLs is a parameter.
use llopster.Base.{
  Bool, false, Option, none, some, [], ◌∷◌, ◌++◌, ◌&&◌, ◌||◌, ◌==◌, not, if◌then◌else◌, Text, lit,
  contains, is_empty,
}
use llopster.Cluster.Objects.{Library, UrlParts}

abbrev is_given : Option Text → Bool
is_given none = false
is_given (some t) = not (is_empty t)

abbrev or_empty : Option Text → Text
or_empty none = []
or_empty (some t) = t

abbrev host_and_port : Library → UrlParts → Text
host_and_port library parts = elim parts.port [
  | none ↦ or_empty parts.hostname
  | some port ↦
      if port == 0
      then or_empty parts.hostname
      else or_empty parts.hostname ++ (b':' ∷ library.show_nat port)
]

-- `urlunsplit` is given no user and no password.
abbrev without_user : Library → UrlParts → UrlParts
without_user library parts = record parts {
  username = none;
  password = none;
  hostname = some (host_and_port library parts);
  port = none;
}

abbrev split_url : Library → Text → Option UrlParts → Text
split_url library value none = value
split_url library value (some parts) =
    if is_given parts.username || is_given parts.password
    then library.urlunsplit (without_user library parts)
    else value

unfoldable pub strip_url_credentials : Library → Text → Text
unfolding contains lit
strip_url_credentials library value =
    if contains value (lit "://") && contains value (lit "@")
    then split_url library value (library.urlsplit value)
    else value
