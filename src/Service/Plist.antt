-- ===== src/Service/Plist.antt =====
-- The launchd job definition of cmd/service.go: `plistTemplate`, `xmlText` and `renderPlist`.
pub mod Escaping
pub mod Reading
use op_forward.Prelude.{ℕ, Bool, ◌&&◌, ◌||◌, [], ◌∷◌, ◌++◌, leb, ◌==◌, if◌then◌else◌, Text, codes}

abbrev pub launchd_label : Text
launchd_label = codes "com.op-forward.daemon"

-- The characters that XML allows (`isInCharacterRange` of encoding/xml).
unfoldable pub in_character_range : ℕ → Bool
in_character_range c =
    (c == 9)
    || ((c == 10)
        || ((c == 13)
            || ((leb 32 c && leb c 55295)
                || ((leb 57344 c && leb c 65533) || (leb 65536 c && leb c 1114111)))))

-- One character of `xml.EscapeText`.
unfoldable pub escape_rune : ℕ → Text
escape_rune c =
    if c == 34
    then codes "&#34;"
    else if c == 39
    then codes "&#39;"
    else if c == 38
    then codes "&amp;"
    else if c == 60
    then codes "&lt;"
    else if c == 62
    then codes "&gt;"
    else if c == 9
    then codes "&#x9;"
    else if c == 10
    then codes "&#xA;"
    else if c == 13
    then codes "&#xD;"
    else if in_character_range c
    then c ∷ []
    else 65533 ∷ []

-- `xmlText`.
unfoldable pub xml_text : Text → Text
xml_text [] = []
xml_text (c ∷ s) = escape_rune c ++ xml_text s

-- `plistTemplate`, cut at each `%s`.
unfoldable pub plist_head : Text
plist_head =
    codes "<?xml version=\"1.0\" encoding=\"UTF-8\"?>\n"
    ++ (codes
          "<!DOCTYPE plist PUBLIC \"-//Apple//DTD PLIST 1.0//EN\" \"http://www.apple.com/DTDs/PropertyList-1.0.dtd\">\n"
        ++ (codes "<plist version=\"1.0\">\n"
            ++ (codes "<dict>\n" ++ (codes "    <key>Label</key>\n" ++ (codes "    <string>")))))

unfoldable pub before_program : Text
before_program =
    codes "</string>\n"
    ++ (codes "    <key>ProgramArguments</key>\n"
        ++ (codes "    <array>\n" ++ (codes "        <string>")))

unfoldable pub before_listen : Text
before_listen =
    codes "</string>\n"
    ++ (codes "        <string>serve</string>\n"
        ++ (codes "        <string>--listen</string>\n" ++ (codes "        <string>")))

unfoldable pub before_home : Text
before_home =
    codes "</string>\n"
    ++ (codes "    </array>\n"
        ++ (codes "    <key>EnvironmentVariables</key>\n"
            ++ (codes "    <dict>\n"
                ++ (codes "        <key>PATH</key>\n"
                    ++ (codes
                          "        <string>/opt/homebrew/bin:/usr/local/bin:/usr/bin:/bin:/usr/sbin:/sbin</string>\n"
                        ++ (codes "        <key>HOME</key>\n" ++ (codes "        <string>")))))))

unfoldable pub before_log : Text
before_log =
    codes "</string>\n"
    ++ (codes "    </dict>\n"
        ++ (codes "    <key>RunAtLoad</key>\n"
            ++ (codes "    <true/>\n"
                ++ (codes "    <key>KeepAlive</key>\n"
                    ++ (codes "    <true/>\n"
                        ++ (codes "    <key>StandardOutPath</key>\n" ++ (codes "    <string>")))))))

unfoldable pub before_errors : Text
before_errors =
    codes "</string>\n" ++ (codes "    <key>StandardErrorPath</key>\n" ++ (codes "    <string>"))

unfoldable pub plist_end : Text
plist_end = codes "</string>\n" ++ (codes "</dict>\n" ++ (codes "</plist>\n"))

-- `renderPlist`.
unfoldable pub render_plist : Text → Text → Text → Text → Text → Text
render_plist label bin listen home log =
    plist_head
    ++ (xml_text label
        ++ (before_program
            ++ (xml_text bin
                ++ (before_listen
                    ++ (xml_text listen
                        ++ (before_home
                            ++ (xml_text home
                                ++ (before_log
                                    ++ (xml_text log
                                        ++ (before_errors ++ (xml_text log ++ plist_end)))))))))))
