-- ===== src/Models/Responses.antt =====
-- What the code reads of backend/src/moadian/models/responses.py and enums.py.
use moadian.Base.{Option, Text}

-- `RequestStatus`
pub data RequestStatus : Type 0 where
  in_progress success failed timed_out not_found : RequestStatus

-- `InquiryResult`; a status that the enumeration does not have is as good as none.
pub record InquiryResult : Type 0 where
  pub reference_number : Option Text
  pub uid : Option Text
  pub status : Option RequestStatus
