-- ===== src/Scanner/Trans/Words.antt =====
-- The rows of the table of transitions that read names, literals and signs, in the constructor of
-- src/parser/sli_scanner.cpp. An entry that the constructor does not fill is `error`.
use sli.Scanner.States.{ScanStates, Codes}

unfoldable pub from_start : Codes → ScanStates
from_start Codes.whitespace = ScanStates.start
from_start Codes.eoln = ScanStates.start
from_start Codes.minus = ScanStates.minusst
from_start Codes.plus = ScanStates.plusst
from_start Codes.digit = ScanStates.intdgtst
from_start Codes.null = ScanStates.nullst
from_start Codes.decpoint = ScanStates.decpfirstst
from_start Codes.openbracket = ScanStates.openbracketst
from_start Codes.closebracket = ScanStates.closebracketst
from_start Codes.openbrace = ScanStates.openbracest
from_start Codes.closebrace = ScanStates.closebracest
from_start Codes.alpha = ScanStates.alphast
from_start Codes.asterisk = ScanStates.alphast
from_start Codes.newline = ScanStates.alphast
from_start Codes.tabulator = ScanStates.alphast
from_start Codes.backslash = ScanStates.alphast
from_start Codes.expntl = ScanStates.alphast
from_start Codes.slash = ScanStates.slashst
from_start Codes.percent = ScanStates.percentst
from_start Codes.eof = ScanStates.eofst
from_start Codes.openparenth = ScanStates.startstringst
from_start _ = ScanStates.error

unfoldable pub from_minusst : Codes → ScanStates
from_minusst Codes.digit = ScanStates.intdgtst
from_minusst Codes.null = ScanStates.nullst
from_minusst Codes.decpoint = ScanStates.decpfirstst
from_minusst Codes.alpha = ScanStates.sgalphast
from_minusst Codes.minus = ScanStates.sgalphast
from_minusst Codes.newline = ScanStates.sgalphast
from_minusst Codes.tabulator = ScanStates.sgalphast
from_minusst Codes.backslash = ScanStates.sgalphast
from_minusst Codes.expntl = ScanStates.alphast
from_minusst Codes.whitespace = ScanStates.aheadsgst
from_minusst Codes.eoln = ScanStates.aheadsgst
from_minusst Codes.openbracket = ScanStates.aheadsgst
from_minusst Codes.openbrace = ScanStates.aheadsgst
from_minusst Codes.closebracket = ScanStates.aheadsgst
from_minusst Codes.closebrace = ScanStates.aheadsgst
from_minusst Codes.percent = ScanStates.aheadsgst
from_minusst Codes.openparenth = ScanStates.aheadsgst
from_minusst Codes.slash = ScanStates.aheadsgst
from_minusst Codes.eof = ScanStates.aheadsgst
from_minusst _ = ScanStates.error

unfoldable pub from_plusst : Codes → ScanStates
from_plusst Codes.digit = ScanStates.intdgtst
from_plusst Codes.null = ScanStates.nullst
from_plusst Codes.decpoint = ScanStates.decpfirstst
from_plusst Codes.alpha = ScanStates.sgalphast
from_plusst Codes.newline = ScanStates.sgalphast
from_plusst Codes.tabulator = ScanStates.sgalphast
from_plusst Codes.backslash = ScanStates.sgalphast
from_plusst Codes.expntl = ScanStates.alphast
from_plusst Codes.whitespace = ScanStates.aheadsgst
from_plusst Codes.eoln = ScanStates.aheadsgst
from_plusst Codes.openbracket = ScanStates.aheadsgst
from_plusst Codes.openbrace = ScanStates.aheadsgst
from_plusst Codes.closebracket = ScanStates.aheadsgst
from_plusst Codes.closebrace = ScanStates.aheadsgst
from_plusst Codes.percent = ScanStates.aheadsgst
from_plusst Codes.openparenth = ScanStates.aheadsgst
from_plusst Codes.slash = ScanStates.aheadsgst
from_plusst Codes.eof = ScanStates.aheadsgst
from_plusst _ = ScanStates.error

unfoldable pub from_alphast : Codes → ScanStates
from_alphast Codes.whitespace = ScanStates.aheadalphst
from_alphast Codes.eoln = ScanStates.aheadalphst
from_alphast Codes.alpha = ScanStates.alphast
from_alphast Codes.asterisk = ScanStates.alphast
from_alphast Codes.newline = ScanStates.alphast
from_alphast Codes.tabulator = ScanStates.alphast
from_alphast Codes.backslash = ScanStates.alphast
from_alphast Codes.expntl = ScanStates.alphast
from_alphast Codes.digit = ScanStates.alphast
from_alphast Codes.null = ScanStates.alphast
from_alphast Codes.plus = ScanStates.alphast
from_alphast Codes.minus = ScanStates.alphast
from_alphast Codes.decpoint = ScanStates.alphast
from_alphast Codes.openbracket = ScanStates.aheadalphst
from_alphast Codes.openbrace = ScanStates.aheadalphst
from_alphast Codes.closebracket = ScanStates.aheadalphst
from_alphast Codes.closebrace = ScanStates.aheadalphst
from_alphast Codes.percent = ScanStates.aheadalphst
from_alphast Codes.openparenth = ScanStates.aheadalphst
from_alphast Codes.slash = ScanStates.aheadalphst
from_alphast Codes.eof = ScanStates.aheadalphst
from_alphast _ = ScanStates.error

unfoldable pub from_slashst : Codes → ScanStates
from_slashst Codes.asterisk = ScanStates.ccommentst
from_slashst Codes.backslash = ScanStates.literalst
from_slashst Codes.alpha = ScanStates.literalst
from_slashst Codes.newline = ScanStates.literalst
from_slashst Codes.tabulator = ScanStates.literalst
from_slashst Codes.minus = ScanStates.literalst
from_slashst Codes.plus = ScanStates.literalst
from_slashst Codes.expntl = ScanStates.literalst
from_slashst Codes.digit = ScanStates.literalst
from_slashst Codes.decpoint = ScanStates.literalst
from_slashst Codes.null = ScanStates.literalst
from_slashst _ = ScanStates.error

unfoldable pub from_literalst : Codes → ScanStates
from_literalst Codes.whitespace = ScanStates.aheadlitst
from_literalst Codes.eoln = ScanStates.aheadlitst
from_literalst Codes.alpha = ScanStates.literalst
from_literalst Codes.asterisk = ScanStates.literalst
from_literalst Codes.newline = ScanStates.literalst
from_literalst Codes.tabulator = ScanStates.literalst
from_literalst Codes.backslash = ScanStates.literalst
from_literalst Codes.expntl = ScanStates.literalst
from_literalst Codes.digit = ScanStates.literalst
from_literalst Codes.null = ScanStates.literalst
from_literalst Codes.plus = ScanStates.literalst
from_literalst Codes.minus = ScanStates.literalst
from_literalst Codes.decpoint = ScanStates.literalst
from_literalst Codes.openbracket = ScanStates.aheadlitst
from_literalst Codes.closebracket = ScanStates.aheadlitst
from_literalst Codes.openbrace = ScanStates.aheadlitst
from_literalst Codes.closebrace = ScanStates.aheadlitst
from_literalst Codes.openparenth = ScanStates.aheadlitst
from_literalst Codes.percent = ScanStates.aheadlitst
from_literalst Codes.slash = ScanStates.aheadlitst
from_literalst Codes.eof = ScanStates.aheadlitst
from_literalst _ = ScanStates.error
