-- ===== src/Bootstrap/Shell.antt =====
-- cloudconfig.go: the quoting of words and the scripts of users and of NTP.
use cluster_api_provider_ver.Base.{
  ◌∷◌, Option, String, none, some, not, [], if◌then◌else◌, Bool, ◌==◌, ◌++◌, ◌<>◌, List, map, false,
}
use cluster_api_provider_ver.Base.TextEdit.{join_texts, replace_char, replace_all}
use cluster_api_provider_ver.Bootstrap.Types.{User}

unfoldable pub shell_quote : String → String
unfolding replace_char
shell_quote s = if s == "" then "''" else "'" <> (replace_char b'\'' "'\\''" s <> "'")

-- command.shell
unfoldable pub shell : List String → String
shell (text ∷ []) = text
shell words = join_texts " " (map shell_quote words)

abbrev pub option : String → String → List String
option flag v = if not (v == "") then flag ∷ shell_quote v ∷ [] else []

unfoldable pub user_args : User → List String
user_args u =
    "--create-home" ∷ option "--comment" u.gecos
    ++ option "--home-dir" u.home_dir
    ++ option "--shell" u.shell
    ++ option "--gid" u.primary_group
    ++ (if not (u.groups == "")
        then "--groups" ∷ shell_quote (replace_all u.groups " " "") ∷ []
        else [])
    ++ (if u.inactive then "--expiredate" ∷ "1" ∷ [] else [])

abbrev home_of : String → String
home_of name = "\"$(getent passwd " <> name <> " | cut -d: -f6)\""

unfoldable key_lines : String → List String → String
key_lines home [] = ""
key_lines home (key ∷ keys) =
    "echo " <> shell_quote key <> " >> " <> home <> "/.ssh/authorized_keys\n" <> key_lines home keys

abbrev ssh_script : String → List String → String
ssh_script name [] = ""
ssh_script name (key ∷ keys) =
    let home = home_of name in
    "install -d -m 0700 -o "
    <> name
    <> " -g "
    <> name
    <> " "
    <> home
    <> "/.ssh\n"
    <> key_lines home (key ∷ keys)
    <> "chown "
    <> name
    <> ":"
    <> name
    <> " "
    <> home
    <> "/.ssh/authorized_keys && chmod 0600 "
    <> home
    <> "/.ssh/authorized_keys\n"

abbrev is_locked : Option Bool → Bool
is_locked none = false
is_locked (some b) = b

abbrev group_script : String → String
group_script group =
    if not (group == "")
    then "getent group "
      <> shell_quote group
      <> " >/dev/null || groupadd "
      <> shell_quote group
      <> "\n"
    else ""

abbrev sudo_script : User → String
sudo_script u =
    if not (u.sudo == "")
    then "install -d -m 0750 /etc/sudoers.d && echo "
      <> shell_quote (u.name <> " " <> u.sudo)
      <> " > /etc/sudoers.d/90-capi-"
      <> u.name
      <> " && chmod 0440 /etc/sudoers.d/90-capi-"
      <> u.name
      <> "\n"
    else ""

unfoldable pub user_script : User → String
unfolding key_lines
user_script u =
    let name = shell_quote u.name in
    if u.name == ""
    then ""
    else group_script u.primary_group
      <> "id -u "
      <> name
      <> " >/dev/null 2>&1 || useradd "
      <> join_texts " " (user_args u)
      <> " "
      <> name
      <> "\n"
      <> (if not (u.passwd == "")
          then "usermod --password " <> shell_quote u.passwd <> " " <> name <> "\n"
          else "")
      <> (if is_locked u.lock_password then "passwd -l " <> name <> " >/dev/null\n" else "")
      <> sudo_script u
      <> ssh_script name u.ssh_authorized_keys

unfoldable server_lines : List String → String
server_lines [] = ""
server_lines (server ∷ servers) =
    "  echo "
    <> shell_quote ("server " <> server <> " iburst")
    <> " >> /etc/chrony/sources.d/capi.sources\n"
    <> server_lines servers

unfoldable pub ntp_script : List String → String
unfolding server_lines
ntp_script [] = ""
ntp_script (server ∷ servers) =
    "if command -v chronyd >/dev/null 2>&1; then\n"
    <> "  install -d /etc/chrony/sources.d\n"
    <> "  : > /etc/chrony/sources.d/capi.sources\n"
    <> server_lines (server ∷ servers)
    <> "  systemctl restart chrony 2>/dev/null || systemctl restart chronyd 2>/dev/null || true\n"
    <> "fi\n"
