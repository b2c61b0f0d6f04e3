-- ===== src/Tests/Texts.antt =====
-- Dates and quoted texts at concrete inputs.
use respawn.Base.{◌+◌, ◌≤◌, Bytes, text, false, none, some, ◌∷◌, ◌++◌, drop, ◌≡◌}
use respawn.Calendar.{days_to_ymd}
use respawn.Calendar.Civil.{next_day, days_to_ymd-suc, days_to_ymd-IsDate}
use respawn.Quoting.{admin_script, shell_command, xml_escape}
use respawn.Quoting.Read.{
  bare, sh_word, as_literal, xml_text, admin_script-shell_command, xml_text-xml_escape,
}

-- February 28 of the leap year 2024.
days_to_ymd-suc_example :
    (days_to_ymd 0 ≡ record { year = 1970; month = 1; day = 1 })
    × (days_to_ymd (19_781 + 1) ≡ next_day (days_to_ymd 19_781))
days_to_ymd-suc_example = days_to_ymd-suc 19_781

days_to_ymd-IsDate_example :
    (1 ≤ (days_to_ymd 19_782).month)
    × ((days_to_ymd 19_782).month ≤ 12)
    × (1 ≤ (days_to_ymd 19_782).day)
    × ((days_to_ymd 19_782).day ≤ 31)
days_to_ymd-IsDate_example = days_to_ymd-IsDate 19_782

admin_script-shell_command_example :
    (as_literal false (
        drop 17 (
          admin_script
            (text "501")
            (text "20")
            (text "/bin/rs")
            (text "/it's")
            (text "/f")
            (text "say \"hi\"")))
      ≡ some (
        shell_command
            (text "501")
            (text "20")
            (text "/bin/rs")
            (text "/it's")
            (text "/f")
            (text "say \"hi\""),
        text " with administrator privileges",
      ))
    × (rest : Bytes) × (sh_word bare (
          drop 3 (
            shell_command
              (text "501")
              (text "20")
              (text "/bin/rs")
              (text "/it's")
              (text "/f")
              (text "say \"hi\"")))
        ≡ some (text "/it's", b' ' ∷ rest))
admin_script-shell_command_example =
    admin_script-shell_command (text "501") (text "20") (text "/bin/rs") (text "/it's") (text "/f")
      (text "say \"hi\"")

xml_text-xml_escape_example :
    xml_text none (xml_escape (text "a<b & 'c'") ++ b'<' ∷ text "/string>")
    ≡ some (text "a<b & 'c'", b'<' ∷ text "/string>")
xml_text-xml_escape_example = xml_text-xml_escape (text "a<b & 'c'") (text "/string>")
