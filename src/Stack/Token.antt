-- ===== src/Stack/Token.antt =====
-- Tokens as the stack operators see them: src/types/sli_type.h and src/types/sli_token.h.
use sli.Prelude.{Bool, true, false}
use sli.Prelude.Int.{ℤ}

-- The type identifiers.
pub data SliTypeid : Type 0 where
  nulltype anytype integertype doubletype booltype literaltype marktype stringtype arraytype
        dictionarytype nametype litproceduretype trietype functiontype proceduretype istreamtype
        xistreamtype ostreamtype symboltype iiteratetype irepeattype ifortype iforalltype ilooptype
        iparsetype iforallstringtype iforallindexedarraytype iforallindexedstringtype imaptype
        imapindexedtype imapthreadtype nooptype quittype regextype graphicscontexttype patterntype
        num_sli_types intvectortype doublevectortype :
      SliTypeid

-- A type, and the word of the union `data_`: the number itself, or an address.
pub record Token : Type 0 where
  pub type : SliTypeid
  pub data_ : ℤ

-- `is_of_type(arraytype)`
abbrev pub is_array : SliTypeid → Bool
is_array SliTypeid.arraytype = true
is_array _ = false
