-- ===== src/Quoting.antt =====
-- src/admin.rs: `sh_quote`, `as_escape` and `admin_script`; src/schedule.rs: `xml_escape` and
-- `plist_xml`. Texts that are put into a shell command, an AppleScript and a property list.
pub mod Read
use respawn.Base.{ℕ, Bytes, text, Bool, [], ◌∷◌, ◌++◌, ◌==◌, nat_eq, if◌then◌else◌}
use respawn.Audit.{decimal}

-- `str::replace` of a character.
unfoldable pub replace : ℕ → Bytes → Bytes → Bytes
replace c by [] = []
replace c by (x ∷ xs) = let rest = replace c by xs in if x == c then by ++ rest else x ∷ rest

unfoldable pub sh_quote : Bytes → Bytes
unfolding replace
sh_quote s = text "'" ++ replace b'\'' (text "'\\''") s ++ text "'"

unfoldable pub as_escape : Bytes → Bytes
unfolding replace
as_escape s = replace b'"' (text "\\\"") (replace b'\\' (text "\\\\") s)

-- The command that an administrator runs, for the ids that `id` prints.
unfoldable pub shell_command : Bytes → Bytes → Bytes → Bytes → Bytes → Bytes → Bytes
unfolding sh_quote
shell_command uid gid exe worktree fabric message =
    text "cd "
    ++ (sh_quote worktree
        ++ (text " && "
            ++ sh_quote exe
            ++ text " snap --apfs -m "
            ++ sh_quote message
            ++ text " && /usr/sbin/chown -R "
            ++ uid
            ++ text ":"
            ++ gid
            ++ text " "
            ++ sh_quote fabric))

unfoldable pub admin_script : Bytes → Bytes → Bytes → Bytes → Bytes → Bytes → Bytes
unfolding as_escape shell_command
admin_script uid gid exe worktree fabric message =
    text "do shell script \""
    ++ as_escape (shell_command uid gid exe worktree fabric message)
    ++ text "\" with administrator privileges"

unfoldable pub xml_escape : Bytes → Bytes
unfolding replace
xml_escape s = replace b'\'' (text "&apos;") (
    replace b'"' (text "&quot;")
      (replace b'>' (text "&gt;") (replace b'<' (text "&lt;") (replace b'&' (text "&amp;") s))))

pub record ScheduleSpec : Type 0 where
  pub label : Bytes
  pub exe : Bytes
  pub worktree : Bytes
  pub anchor_dir : Bytes
  pub every : ℕ
  pub plist_path : Bytes
  pub log : Bytes

abbrev pub plist_head : Bytes
plist_head =
    text "<?xml version=\"1.0\" encoding=\"UTF-8\"?>\n"
    ++ text "<!DOCTYPE plist PUBLIC \"-//Apple//DTD PLIST 1.0//EN\" "
    ++ text "\"http://www.apple.com/DTDs/PropertyList-1.0.dtd\">\n"
    ++ text "<plist version=\"1.0\">\n<dict>\n"
    ++ text "\t<key>Label</key>\n\t<string>"

unfoldable pub plist_xml : ScheduleSpec → Bytes
unfolding xml_escape
plist_xml spec =
    plist_head
    ++ xml_escape spec.label
    ++ text "</string>\n\t<key>ProgramArguments</key>\n\t<array>\n\t\t<string>"
    ++ xml_escape spec.exe
    ++ text "</string>\n\t\t<string>anchor</string>\n\t\t<string>next</string>\n\t\t<string>"
    ++ xml_escape spec.anchor_dir
    ++ text "</string>\n\t</array>\n\t<key>WorkingDirectory</key>\n\t<string>"
    ++ xml_escape spec.worktree
    ++ text "</string>\n\t<key>StartInterval</key>\n\t<integer>"
    ++ decimal spec.every
    ++ text
        "</integer>\n\t<key>RunAtLoad</key>\n\t<true/>\n\t<key>StandardOutPath</key>\n\t<string>"
    ++ xml_escape spec.log
    ++ text "</string>\n\t<key>StandardErrorPath</key>\n\t<string>"
    ++ xml_escape spec.log
    ++ text "</string>\n</dict>\n</plist>\n"
