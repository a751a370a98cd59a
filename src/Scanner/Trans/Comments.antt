-- ===== src/Scanner/Trans/Comments.antt =====
-- The rows of the table of transitions that read comments, in the constructor of
-- src/parser/sli_scanner.cpp. An entry that the constructor does not fill is `error`.
use sli.Scanner.States.{ScanStates, Codes}

unfoldable pub from_percentst : Codes → ScanStates
from_percentst Codes.eoln = ScanStates.start
from_percentst Codes.backslash = ScanStates.percentst
from_percentst Codes.whitespace = ScanStates.percentst
from_percentst Codes.openparenth = ScanStates.percentst
from_percentst Codes.closeparenth = ScanStates.percentst
from_percentst Codes.digit = ScanStates.percentst
from_percentst Codes.null = ScanStates.percentst
from_percentst Codes.decpoint = ScanStates.percentst
from_percentst Codes.plus = ScanStates.percentst
from_percentst Codes.minus = ScanStates.percentst
from_percentst Codes.openbracket = ScanStates.percentst
from_percentst Codes.closebracket = ScanStates.percentst
from_percentst Codes.openbrace = ScanStates.percentst
from_percentst Codes.closebrace = ScanStates.percentst
from_percentst Codes.alpha = ScanStates.percentst
from_percentst Codes.newline = ScanStates.percentst
from_percentst Codes.tabulator = ScanStates.percentst
from_percentst Codes.expntl = ScanStates.percentst
from_percentst Codes.slash = ScanStates.percentst
from_percentst Codes.percent = ScanStates.percentst
from_percentst Codes.asterisk = ScanStates.percentst
from_percentst Codes.eof = ScanStates.eofst
from_percentst _ = ScanStates.error

unfoldable pub from_ccommentst : Codes → ScanStates
from_ccommentst Codes.eoln = ScanStates.ccommentst
from_ccommentst Codes.whitespace = ScanStates.ccommentst
from_ccommentst Codes.openparenth = ScanStates.ccommentst
from_ccommentst Codes.closeparenth = ScanStates.ccommentst
from_ccommentst Codes.backslash = ScanStates.ccommentst
from_ccommentst Codes.digit = ScanStates.ccommentst
from_ccommentst Codes.null = ScanStates.ccommentst
from_ccommentst Codes.decpoint = ScanStates.ccommentst
from_ccommentst Codes.plus = ScanStates.ccommentst
from_ccommentst Codes.minus = ScanStates.ccommentst
from_ccommentst Codes.percent = ScanStates.ccommentst
from_ccommentst Codes.openbracket = ScanStates.ccommentst
from_ccommentst Codes.closebracket = ScanStates.ccommentst
from_ccommentst Codes.openbrace = ScanStates.ccommentst
from_ccommentst Codes.closebrace = ScanStates.ccommentst
from_ccommentst Codes.alpha = ScanStates.ccommentst
from_ccommentst Codes.newline = ScanStates.ccommentst
from_ccommentst Codes.tabulator = ScanStates.ccommentst
from_ccommentst Codes.expntl = ScanStates.ccommentst
from_ccommentst Codes.slash = ScanStates.ccommentst
from_ccommentst Codes.asterisk = ScanStates.asteriskst
from_ccommentst _ = ScanStates.error

unfoldable pub from_asteriskst : Codes → ScanStates
from_asteriskst Codes.slash = ScanStates.start
from_asteriskst Codes.eoln = ScanStates.ccommentst
from_asteriskst Codes.backslash = ScanStates.ccommentst
from_asteriskst Codes.whitespace = ScanStates.ccommentst
from_asteriskst Codes.openparenth = ScanStates.ccommentst
from_asteriskst Codes.closeparenth = ScanStates.ccommentst
from_asteriskst Codes.digit = ScanStates.ccommentst
from_asteriskst Codes.null = ScanStates.ccommentst
from_asteriskst Codes.decpoint = ScanStates.ccommentst
from_asteriskst Codes.plus = ScanStates.ccommentst
from_asteriskst Codes.minus = ScanStates.ccommentst
from_asteriskst Codes.openbracket = ScanStates.ccommentst
from_asteriskst Codes.closebracket = ScanStates.ccommentst
from_asteriskst Codes.openbrace = ScanStates.ccommentst
from_asteriskst Codes.closebrace = ScanStates.ccommentst
from_asteriskst Codes.alpha = ScanStates.ccommentst
from_asteriskst Codes.newline = ScanStates.ccommentst
from_asteriskst Codes.tabulator = ScanStates.ccommentst
from_asteriskst Codes.expntl = ScanStates.ccommentst
from_asteriskst Codes.percent = ScanStates.ccommentst
from_asteriskst Codes.asterisk = ScanStates.asteriskst
from_asteriskst _ = ScanStates.error
