-- ===== src/Scanner/Trans.antt =====
-- The transition table `trans` of src/parser/sli_scanner.cpp, by rows. A row that the constructor
-- does not fill holds `error` alone.
pub mod Words
pub mod Strings
pub mod Numbers
pub mod Comments
use sli.Scanner.States.{ScanStates, Codes}
use Words.{from_start, from_minusst, from_plusst, from_alphast, from_slashst, from_literalst}
use Strings.{from_startstringst, from_stringst, from_backslashst}
use Numbers.{
  from_intdgtst, from_nullst, from_decpfirstst, from_decpointst, from_fracdgtst, from_expntlst,
  from_plexpst, from_mnexpst, from_expdigst,
}
use Comments.{from_percentst, from_ccommentst, from_asteriskst}

unfoldable pub trans : ScanStates → Codes → ScanStates
unfolding from_start from_minusst from_plusst from_startstringst from_stringst from_backslashst
    from_intdgtst from_nullst from_decpfirstst from_decpointst from_fracdgtst from_expntlst
    from_plexpst from_mnexpst from_expdigst from_alphast from_percentst from_slashst from_literalst
    from_ccommentst from_asteriskst
trans ScanStates.start c = from_start c
trans ScanStates.minusst c = from_minusst c
trans ScanStates.plusst c = from_plusst c
trans ScanStates.startstringst c = from_startstringst c
trans ScanStates.stringst c = from_stringst c
trans ScanStates.backslashst c = from_backslashst c
trans ScanStates.intdgtst c = from_intdgtst c
trans ScanStates.nullst c = from_nullst c
trans ScanStates.decpfirstst c = from_decpfirstst c
trans ScanStates.decpointst c = from_decpointst c
trans ScanStates.fracdgtst c = from_fracdgtst c
trans ScanStates.expntlst c = from_expntlst c
trans ScanStates.plexpst c = from_plexpst c
trans ScanStates.mnexpst c = from_mnexpst c
trans ScanStates.expdigst c = from_expdigst c
trans ScanStates.alphast c = from_alphast c
trans ScanStates.percentst c = from_percentst c
trans ScanStates.slashst c = from_slashst c
trans ScanStates.literalst c = from_literalst c
trans ScanStates.ccommentst c = from_ccommentst c
trans ScanStates.asteriskst c = from_asteriskst c
trans _ c = ScanStates.error
