-- ===== src/Templates/Markup.antt =====
-- The elements that the templates of src/templates.rs are built from, as the text that `maud` writes
-- for them. A literal without `&`, `<`, `>` and a double quote is written as it stands.
use epistole.Prelude.{◌++◌, [], ◌∷◌, Text, text}

-- A double quote.
abbrev pub quote : Text
quote = b'"' ∷ []

-- ` name="value"`, with the value as it is written
abbrev pub attribute : Text → Text → Text
attribute name value = text " " ++ name ++ text "=" ++ quote ++ value ++ quote

-- `<name attributes>`
abbrev pub opening : Text → Text → Text
opening name attributes = text "<" ++ name ++ attributes ++ text ">"

-- `<name attributes>inner</name>`
abbrev pub element : Text → Text → Text → Text
element name attributes inner = opening name attributes ++ inner ++ text "</" ++ name ++ text ">"

-- `<name>inner</name>`
abbrev pub plain : Text → Text → Text
plain name inner = element name [] inner
