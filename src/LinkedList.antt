-- ===== src/LinkedList.antt =====
-- What the two simulators use of list.h, the Linux list library that is copied beside each of
-- them. The library is not modelled: its calls are the fields of a record, with what it documents
-- as laws. A list head stands for the sequence of the entries that `list_for_each` visits.
mod Defs
pub mod Reference
pub use Defs.{ListHead, IsTotalPreorder, IsSorted}
