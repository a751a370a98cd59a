-- ===== src/Scanner/Trans/Strings.antt =====
-- The rows of the table of transitions that read strings, in the constructor of
-- src/parser/sli_scanner.cpp. An entry that the constructor does not fill is `error`.
use sli.Scanner.States.{ScanStates, Codes}

unfoldable pub from_startstringst : Codes → ScanStates
from_startstringst Codes.closeparenth = ScanStates.closeparst
from_startstringst Codes.openparenth = ScanStates.openparst
from_startstringst Codes.backslash = ScanStates.backslashst
from_startstringst Codes.digit = ScanStates.stringst
from_startstringst Codes.null = ScanStates.stringst
from_startstringst Codes.expntl = ScanStates.stringst
from_startstringst Codes.decpoint = ScanStates.stringst
from_startstringst Codes.plus = ScanStates.stringst
from_startstringst Codes.minus = ScanStates.stringst
from_startstringst Codes.whitespace = ScanStates.stringst
from_startstringst Codes.eoln = ScanStates.stringst
from_startstringst Codes.openbracket = ScanStates.stringst
from_startstringst Codes.closebracket = ScanStates.stringst
from_startstringst Codes.openbrace = ScanStates.stringst
from_startstringst Codes.closebrace = ScanStates.stringst
from_startstringst Codes.alpha = ScanStates.stringst
from_startstringst Codes.newline = ScanStates.stringst
from_startstringst Codes.tabulator = ScanStates.stringst
from_startstringst Codes.slash = ScanStates.stringst
from_startstringst Codes.percent = ScanStates.stringst
from_startstringst Codes.asterisk = ScanStates.stringst
from_startstringst _ = ScanStates.error

unfoldable pub from_stringst : Codes → ScanStates
from_stringst Codes.closeparenth = ScanStates.closeparst
from_stringst Codes.openparenth = ScanStates.openparst
from_stringst Codes.backslash = ScanStates.backslashst
from_stringst Codes.digit = ScanStates.stringst
from_stringst Codes.null = ScanStates.stringst
from_stringst Codes.expntl = ScanStates.stringst
from_stringst Codes.decpoint = ScanStates.stringst
from_stringst Codes.plus = ScanStates.stringst
from_stringst Codes.minus = ScanStates.stringst
from_stringst Codes.whitespace = ScanStates.stringst
from_stringst Codes.eoln = ScanStates.stringst
from_stringst Codes.openbracket = ScanStates.stringst
from_stringst Codes.closebracket = ScanStates.stringst
from_stringst Codes.openbrace = ScanStates.stringst
from_stringst Codes.closebrace = ScanStates.stringst
from_stringst Codes.alpha = ScanStates.stringst
from_stringst Codes.newline = ScanStates.stringst
from_stringst Codes.tabulator = ScanStates.stringst
from_stringst Codes.slash = ScanStates.stringst
from_stringst Codes.percent = ScanStates.stringst
from_stringst Codes.asterisk = ScanStates.stringst
from_stringst _ = ScanStates.error

unfoldable pub from_backslashst : Codes → ScanStates
from_backslashst Codes.newline = ScanStates.newlinest
from_backslashst Codes.tabulator = ScanStates.tabulatorst
from_backslashst Codes.backslash = ScanStates.backslashcst
from_backslashst Codes.openparenth = ScanStates.oparenthcst
from_backslashst Codes.closeparenth = ScanStates.cparenthcst
from_backslashst _ = ScanStates.error
