-- ===== src/Service/Plist/Reading.antt =====
-- The job definition of cmd/service.go, read back as XML.
use op_forward.Go.Strings.{has_prefix, trim_prefix}
use op_forward.Service.Plist.{
  xml_text, plist_head, before_program, before_listen, before_home, before_log, before_errors,
  plist_end, render_plist,
}
use op_forward.Prelude.{◌≡◌, refl, ap, ◌∙◌, [], ◌∷◌, ◌++◌, append-nil, Text, codes}
use op_forward.Service.Plist.Escaping.{
  IsXmlText, character_data, string_value, scan, string_elements, character_data-xml_text,
  scan-xml_text,
}

-- The value that stands between the tags.
module _ (s t : Text) (ok : IsXmlText s) (closed : (scan t).0 ≡ []) where
  value_read :
      string_value (codes "string>" ++ (scan (xml_text s ++ t)).0) ++ (scan (xml_text s ++ t)).1
      ≡ s ∷ string_elements t
  unfolding string_value has_prefix trim_prefix
  value_read =
      rw (scan-xml_text s t ok, closed, append-nil (xml_text s), character_data-xml_text s ok) refl

  head_read : string_elements (plist_head ++ (xml_text s ++ t)) ≡ s ∷ string_elements t
  unfolding plist_head scan string_value has_prefix trim_prefix
  head_read = value_read

  program_read : string_elements (before_program ++ (xml_text s ++ t)) ≡ s ∷ string_elements t
  unfolding before_program scan string_value has_prefix trim_prefix
  program_read = value_read

  listen_read :
      string_elements (before_listen ++ (xml_text s ++ t))
      ≡ codes "serve" ∷ codes "--listen" ∷ s ∷ string_elements t
  unfolding before_listen scan string_value has_prefix trim_prefix character_data
  listen_read = ap (λ x. codes "serve" ∷ codes "--listen" ∷ x) value_read

  home_read :
      string_elements (before_home ++ (xml_text s ++ t))
      ≡ codes "/opt/homebrew/bin:/usr/local/bin:/usr/bin:/bin:/usr/sbin:/sbin"
        ∷ s
        ∷ string_elements t
  unfolding before_home scan string_value has_prefix trim_prefix character_data
  home_read =
      ap (λ x. codes "/opt/homebrew/bin:/usr/local/bin:/usr/bin:/bin:/usr/sbin:/sbin" ∷ x)
        value_read

  log_read : string_elements (before_log ++ (xml_text s ++ t)) ≡ s ∷ string_elements t
  unfolding before_log scan string_value has_prefix trim_prefix
  log_read = value_read

  errors_read : string_elements (before_errors ++ (xml_text s ++ t)) ≡ s ∷ string_elements t
  unfolding before_errors scan string_value has_prefix trim_prefix
  errors_read = value_read

-- Every part of the template behind a value begins with a tag.
opens :
    (s : Text)
    → ((scan (before_program ++ s)).0 ≡ [])
      × (((scan (before_listen ++ s)).0 ≡ [])
          × (((scan (before_home ++ s)).0 ≡ [])
              × (((scan (before_log ++ s)).0 ≡ [])
                  × (((scan (before_errors ++ s)).0 ≡ []) × ((scan plist_end).0 ≡ [])))))
unfolding scan before_program before_listen before_home before_log before_errors plist_end
opens s = (refl, (refl, (refl, (refl, (refl, refl)))))

end_read : string_elements plist_end ≡ []
unfolding plist_end scan string_value has_prefix
end_read = refl

-- XML reads the rendered job definition back: for values of characters that XML allows, the string
-- elements are, in their order, the label, the program and its arguments `serve`, `--listen` and the
-- endpoint, the search path, the home directory, and the log file twice. No value can add or change
-- an element.
pub string_elements-render_plist :
    (label bin listen home log : Text)
    → IsXmlText label
    → IsXmlText bin
    → IsXmlText listen
    → IsXmlText home
    → IsXmlText log
    → string_elements (render_plist label bin listen home log)
      ≡ label
        ∷ bin
        ∷ codes "serve"
        ∷ codes "--listen"
        ∷ listen
        ∷ codes "/opt/homebrew/bin:/usr/local/bin:/usr/bin:/bin:/usr/sbin:/sbin"
        ∷ home
        ∷ log
        ∷ log
        ∷ []
unfolding render_plist
string_elements-render_plist label bin listen home log label_ok bin_ok listen_ok home_ok log_ok =
    head_read label _ label_ok (opens _).0
    ∙ ap (λ x. label ∷ x) (program_read bin _ bin_ok (opens _).1.0)
    ∙ ap (λ x. label ∷ bin ∷ x) (listen_read listen _ listen_ok (opens _).1.1.0)
    ∙ ap (λ x. label ∷ bin ∷ codes "serve" ∷ codes "--listen" ∷ listen ∷ x)
        (home_read home _ home_ok (opens _).1.1.1.0 ∙ ap (λ x. search_path ∷ home ∷ x) logs_read)
  where
    search_path : Text
    search_path = codes "/opt/homebrew/bin:/usr/local/bin:/usr/bin:/bin:/usr/sbin:/sbin"

    logs_read :
        string_elements
          (before_log ++ (xml_text log ++ (before_errors ++ (xml_text log ++ plist_end))))
        ≡ log ∷ log ∷ []
    logs_read =
        log_read log _ log_ok (opens _).1.1.1.1.0
        ∙ ap (λ x. log ∷ x)
            (errors_read log plist_end log_ok (opens []).1.1.1.1.1 ∙ ap (λ x. log ∷ x) end_read)
