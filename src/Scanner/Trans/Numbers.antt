-- ===== src/Scanner/Trans/Numbers.antt =====
-- The rows of the table of transitions that read numbers, in the constructor of
-- src/parser/sli_scanner.cpp. An entry that the constructor does not fill is `error`.
use sli.Scanner.States.{ScanStates, Codes}

unfoldable pub from_intdgtst : Codes → ScanStates
from_intdgtst Codes.digit = ScanStates.intdgtst
from_intdgtst Codes.null = ScanStates.intdgtst
from_intdgtst Codes.expntl = ScanStates.intexpst
from_intdgtst Codes.decpoint = ScanStates.decpointst
from_intdgtst Codes.whitespace = ScanStates.aheadintst
from_intdgtst Codes.openbracket = ScanStates.aheadintst
from_intdgtst Codes.openbrace = ScanStates.aheadintst
from_intdgtst Codes.closebrace = ScanStates.aheadintst
from_intdgtst Codes.closebracket = ScanStates.aheadintst
from_intdgtst Codes.percent = ScanStates.aheadintst
from_intdgtst Codes.slash = ScanStates.aheadintst
from_intdgtst Codes.alpha = ScanStates.aheadintst
from_intdgtst Codes.newline = ScanStates.aheadintst
from_intdgtst Codes.tabulator = ScanStates.aheadintst
from_intdgtst Codes.backslash = ScanStates.aheadintst
from_intdgtst Codes.openparenth = ScanStates.aheadintst
from_intdgtst Codes.eoln = ScanStates.aheadintst
from_intdgtst Codes.eof = ScanStates.aheadintst
from_intdgtst _ = ScanStates.error

unfoldable pub from_nullst : Codes → ScanStates
from_nullst Codes.decpoint = ScanStates.decpointst
from_nullst Codes.expntl = ScanStates.expntlst
from_nullst Codes.whitespace = ScanStates.aheadintst
from_nullst Codes.openbracket = ScanStates.aheadintst
from_nullst Codes.openbrace = ScanStates.aheadintst
from_nullst Codes.closebrace = ScanStates.aheadintst
from_nullst Codes.closebracket = ScanStates.aheadintst
from_nullst Codes.percent = ScanStates.aheadintst
from_nullst Codes.slash = ScanStates.aheadintst
from_nullst Codes.openparenth = ScanStates.aheadintst
from_nullst Codes.alpha = ScanStates.aheadintst
from_nullst Codes.tabulator = ScanStates.aheadintst
from_nullst Codes.newline = ScanStates.aheadintst
from_nullst Codes.backslash = ScanStates.aheadintst
from_nullst Codes.eoln = ScanStates.aheadintst
from_nullst Codes.eof = ScanStates.aheadintst
from_nullst _ = ScanStates.error

unfoldable pub from_decpfirstst : Codes → ScanStates
from_decpfirstst Codes.digit = ScanStates.decpdgtst
from_decpfirstst Codes.null = ScanStates.decpdgtst
from_decpfirstst _ = ScanStates.error

unfoldable pub from_decpointst : Codes → ScanStates
from_decpointst Codes.digit = ScanStates.fracdgtst
from_decpointst Codes.null = ScanStates.fracdgtst
from_decpointst Codes.expntl = ScanStates.expntlst
from_decpointst Codes.whitespace = ScanStates.aheadfracst
from_decpointst Codes.eoln = ScanStates.aheadfracst
from_decpointst Codes.openbracket = ScanStates.aheadfracst
from_decpointst Codes.openbrace = ScanStates.aheadfracst
from_decpointst Codes.closebracket = ScanStates.aheadfracst
from_decpointst Codes.closebrace = ScanStates.aheadfracst
from_decpointst Codes.percent = ScanStates.aheadfracst
from_decpointst Codes.slash = ScanStates.aheadfracst
from_decpointst Codes.openparenth = ScanStates.aheadfracst
from_decpointst Codes.alpha = ScanStates.aheadfracst
from_decpointst Codes.tabulator = ScanStates.aheadfracst
from_decpointst Codes.newline = ScanStates.aheadfracst
from_decpointst Codes.backslash = ScanStates.aheadfracst
from_decpointst Codes.eof = ScanStates.aheadfracst
from_decpointst _ = ScanStates.error

unfoldable pub from_fracdgtst : Codes → ScanStates
from_fracdgtst Codes.digit = ScanStates.fracdgtst
from_fracdgtst Codes.null = ScanStates.fracdgtst
from_fracdgtst Codes.expntl = ScanStates.expntlst
from_fracdgtst Codes.whitespace = ScanStates.aheadfracst
from_fracdgtst Codes.eoln = ScanStates.aheadfracst
from_fracdgtst Codes.openbracket = ScanStates.aheadfracst
from_fracdgtst Codes.openbrace = ScanStates.aheadfracst
from_fracdgtst Codes.closebracket = ScanStates.aheadfracst
from_fracdgtst Codes.closebrace = ScanStates.aheadfracst
from_fracdgtst Codes.percent = ScanStates.aheadfracst
from_fracdgtst Codes.slash = ScanStates.aheadfracst
from_fracdgtst Codes.openparenth = ScanStates.aheadfracst
from_fracdgtst Codes.alpha = ScanStates.aheadfracst
from_fracdgtst Codes.tabulator = ScanStates.aheadfracst
from_fracdgtst Codes.newline = ScanStates.aheadfracst
from_fracdgtst Codes.backslash = ScanStates.aheadfracst
from_fracdgtst Codes.eof = ScanStates.aheadfracst
from_fracdgtst _ = ScanStates.error

unfoldable pub from_expntlst : Codes → ScanStates
from_expntlst Codes.digit = ScanStates.expdigst
from_expntlst Codes.null = ScanStates.expdigst
from_expntlst Codes.plus = ScanStates.plexpst
from_expntlst Codes.minus = ScanStates.mnexpst
from_expntlst _ = ScanStates.error

unfoldable pub from_plexpst : Codes → ScanStates
from_plexpst Codes.digit = ScanStates.expdigst
from_plexpst Codes.null = ScanStates.expdigst
from_plexpst _ = ScanStates.error

unfoldable pub from_mnexpst : Codes → ScanStates
from_mnexpst Codes.digit = ScanStates.expdigst
from_mnexpst Codes.null = ScanStates.expdigst
from_mnexpst _ = ScanStates.error

unfoldable pub from_expdigst : Codes → ScanStates
from_expdigst Codes.digit = ScanStates.expdigst
from_expdigst Codes.null = ScanStates.expdigst
from_expdigst Codes.whitespace = ScanStates.aheadfracst
from_expdigst Codes.eoln = ScanStates.aheadfracst
from_expdigst Codes.openbracket = ScanStates.aheadfracst
from_expdigst Codes.openbrace = ScanStates.aheadfracst
from_expdigst Codes.closebracket = ScanStates.aheadfracst
from_expdigst Codes.closebrace = ScanStates.aheadfracst
from_expdigst Codes.percent = ScanStates.aheadfracst
from_expdigst Codes.slash = ScanStates.aheadfracst
from_expdigst Codes.openparenth = ScanStates.aheadfracst
from_expdigst Codes.alpha = ScanStates.aheadfracst
from_expdigst Codes.newline = ScanStates.aheadfracst
from_expdigst Codes.tabulator = ScanStates.aheadfracst
from_expdigst Codes.backslash = ScanStates.aheadfracst
from_expdigst Codes.eof = ScanStates.aheadfracst
from_expdigst _ = ScanStates.error
