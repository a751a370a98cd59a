-- ===== src/Scanner/States.antt =====
-- The enumerations of src/parser/sli_scanner.h: the states of the automaton and the codes of
-- characters. `lastscanstate` and `lastcode` only give the sizes of the table.
pub data ScanStates : Type 0 where
  start intdgtst intexpst nullst aheadintst decpfirstst decpdgtst decpointst fracdgtst minusst
        plusst aheadsgst sgalphast aheadfracst expntlst plexpst mnexpst openbracketst closebracketst
        openbracest closebracest openparst closeparst expdigst alphast aheadalphst slashst literalst
        aheadlitst percentst whitest asteriskst ccommentst startstringst stringst backslashst
        newlinest tabulatorst backslashcst oparenthcst cparenthcst end eofst error :
      ScanStates

pub data Codes : Type 0 where
  invalid whitespace eof digit null expntl decpoint plus minus openbracket closebracket openbrace
        closebrace openparenth closeparenth alpha slash backslash newline tabulator asterisk percent
        eoln other :
      Codes
