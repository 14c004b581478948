-- ===== src/Log/Yaml/Defines.antt =====
-- What is written of a definition, read again.
use gwn_framwork.Base.{
  ◌≡◌, refl, ◌∙◌, inl, inr, Bool, true, not, List, [], ◌∷◌, none, some, ◌==◌, if◌then◌else◌,
  is_empty, Text, codes, text_eq, Bool-cases,
}
use gwn_framwork.Yaml.{Yaml, IsLawful, Survives}
use gwn_framwork.Log.Level.{Level}
use gwn_framwork.Log.Define.{LogAppenderDefine, LogDefine}
use gwn_framwork.Log.Define.Reading.{
  read_define, read_named, read_kind, read_appender, read_appenders, read_typed, read_file,
  appender, push,
}
use gwn_framwork.Log.Yaml.{
  entry, settings, file_node, stdout_node, define_item, define_items, define_node, push_appenders,
  show_define, cast_define,
}
use gwn_framwork.Log.Yaml.Fields.{
  IsOpen-not_scalar, entry_lem, settings_lem, push_appenders_lem, items_of-Appends,
  from_string-known,
}

-- What a reader gets of the appenders: the kinds that have a name, without their levels.
abbrev pub read_back : List LogAppenderDefine → List LogAppenderDefine
read_back [] = []
read_back (a ∷ l) =
    let rest = read_back l in
    if a.type == 1
    then appender 1 a.file a.formatter ∷ rest
    else if a.type == 2
    then appender 2 [] a.formatter ∷ rest
    else rest

module _ (y : Yaml) (lawful : IsLawful y) where
  -- One appender is read from its node.
  pub file_item :
      (l : Level) (given : Bool) (t name : Text)
      → let m = settings y l given t (file_node y name) in
        read_appender y m ≡ some (some (appender 1 name (if given then t else [])))
  unfolding file_node read_appender read_kind read_typed read_file text_eq
  file_item l given t name =
      let (o₁, f₁) =
        entry_lem y lawful true (codes "type") (codes "FileLogAppender") y.null (inl refl) in
      let (o₂, f₂) = entry_lem y lawful true (codes "file") name _ o₁ in
      let (o₃, lv, fm, other) =
        settings_lem y lawful l given t _ o₂
          (f₂ (codes "level") ∙ f₁ (codes "level") ∙ lawful.null_field _)
          (f₂ (codes "formatter") ∙ f₁ (codes "formatter") ∙ lawful.null_field _) in
      rw
        (
          IsOpen-not_scalar y lawful _ o₃,
          other (codes "type") refl refl,
          f₂ (codes "type"),
          f₁ (codes "type"),
          lawful.string_text (codes "FileLogAppender"),
          other (codes "file") refl refl,
          f₂ (codes "file"),
          lawful.string_text name,
          fm,
        )
        refl

  pub stdout_item :
      (l : Level) (given : Bool) (t : Text)
      → let m = settings y l given t (stdout_node y) in
        read_appender y m ≡ some (some (appender 2 [] (if given then t else [])))
  unfolding stdout_node read_appender read_kind read_typed text_eq
  stdout_item l given t =
      let (o₁, f₁) =
        entry_lem y lawful true (codes "type") (codes "StdoutLogAppender") y.null (inl refl) in
      let (o₃, lv, fm, other) =
        settings_lem y lawful l given t _ o₁ (f₁ (codes "level") ∙ lawful.null_field _)
          (f₁ (codes "formatter") ∙ lawful.null_field _) in
      rw
        (
          IsOpen-not_scalar y lawful _ o₃,
          other (codes "type") refl refl,
          f₁ (codes "type"),
          lawful.string_text (codes "StdoutLogAppender"),
          fm,
        )
        refl

  other_item :
      (l : Level) (given : Bool) (t : Text)
      → let m = settings y l given t y.null in read_appender y m ≡ some none
  unfolding read_appender read_kind text_eq
  other_item l given t =
      let (o₃, lv, fm, other) =
        settings_lem y lawful l given t y.null (inl refl) (lawful.null_field _)
          (lawful.null_field _) in
      rw
        (
          IsOpen-not_scalar y lawful _ o₃,
          other (codes "type") refl refl,
          lawful.null_field (codes "type"),
        )
        refl

  if_not_empty : (t : Text) → (if not (is_empty t) then t else []) ≡ t
  if_not_empty [] = refl
  if_not_empty (c ∷ t) = refl

  read_appenders-define_items :
      (l : List LogAppenderDefine) → read_appenders y (define_items y l) ≡ some (read_back l)
  unfolding read_appenders define_items define_item push
  read_appenders-define_items [] = refl
  read_appenders-define_items (a ∷ l) =
      let ih = read_appenders-define_items l in
      elim (Bool-cases (a.type == 1)) [
        | inl p ↦
            rw
              (
                p,
                file_item a.level (not (is_empty a.formatter)) a.formatter a.file,
                if_not_empty a.formatter,
                ih,
              )
              refl
        | inr p ↦ elim (Bool-cases (a.type == 2)) [
          | inl q ↦
              rw
                (
                  p,
                  q,
                  stdout_item a.level (not (is_empty a.formatter)) a.formatter,
                  if_not_empty a.formatter,
                  ih,
                )
                refl
          | inr q ↦ rw (p, q, other_item a.level (not (is_empty a.formatter)) a.formatter, ih) refl
        ]
      ]

  -- A node of a logger or of a definition is read from its parts.
  pub read_define_lem :
      (name : Text) (l : Level) (given : Bool) (t : Text) (items : List y.node)
      (read : List LogAppenderDefine)
      → read_appenders y items ≡ some read
      → read_define y
          (push_appenders y items (settings y l given t (entry y true (codes "name") name y.null)))
        ≡ some (record {
          name = name;
          level = l;
          formatter = if given then t else [];
          appenders = read;
        })
  unfolding read_define read_named text_eq
  read_define_lem name l given t items read h =
      let (o₁, f₁) = entry_lem y lawful true (codes "name") name y.null (inl refl) in
      let (o₂, lv, fm, other) =
        settings_lem y lawful l given t _ o₁ (f₁ (codes "level") ∙ lawful.null_field _)
          (f₁ (codes "formatter") ∙ lawful.null_field _) in
      let (appends, kept) = push_appenders_lem y lawful items [] _ o₂ (
        inl (
          other (codes "appenders") refl refl ∙ f₁ (codes "appenders") ∙ lawful.null_field _,
          refl,
        )) in
      rw
        (
          kept (codes "name") refl,
          other (codes "name") refl refl,
          f₁ (codes "name"),
          lawful.string_text name,
          kept (codes "level") refl,
          lv,
          kept (codes "formatter") refl,
          fm,
          items_of-Appends y lawful _ _ appends,
          h,
          from_string-known l,
        )
        refl

  -- Every definition whose node survives being written and loaded is read back from the text that it
  -- is written to, with its name, its level and its formatter. Of its appenders the files and the
  -- consoles come back in order, without their levels, and with the file name of a file only.
  pub cast_define-show_define :
      (d : LogDefine)
      → Survives y (define_node y d)
      → cast_define y (show_define y d) ≡ some (record d { appenders = read_back d.appenders })
  unfolding cast_define show_define define_node
  cast_define-show_define d survives = rw (survives) (
      read_define_lem d.name d.level (not (is_empty d.formatter)) d.formatter
        (define_items y d.appenders) (read_back d.appenders)
        (read_appenders-define_items d.appenders)
      ∙ rw (if_not_empty d.formatter) refl)
