-- ===== src/Codes.antt =====
-- The enumerations of src/messages/CodesManager.h, with the numbers that `static_cast` gives them.
use secure_cloud_storage.Common.{ℕ}

pub data Result : Type 0 where
  ack nack : Result

pub data Message : Type 0 where
  authentication_request upload_request upload_chunk download_request download_ack : Message
  download_chunk delete_request delete_ask delete_confirm list_request list_ack : Message
  list_response rename_request logout_request no_delete_confirm : Message

pub data Error : Type 0 where
  username_not_found filename_already_exists file_not_found filename_not_found : Error
  delete_file_error : Error

pub data Return : Type 0 where
  success authentication_success authentication_failure encryption_failure send_failure : Return
  receive_failure decryption_failure wrong_counter wrong_msg_code wrong_path : Return
  file_already_exists file_not_found read_chunk_failure write_chunk_failure wrong_file_size : Return
  no_delete_confirm rename_failure : Return

abbrev pub result_code : Result → ℕ
result_code ack = 0
result_code nack = 1

abbrev pub message_code : Message → ℕ
message_code authentication_request = 2
message_code upload_request = 3
message_code upload_chunk = 4
message_code download_request = 5
message_code download_ack = 6
message_code download_chunk = 7
message_code delete_request = 8
message_code delete_ask = 9
message_code delete_confirm = 10
message_code list_request = 11
message_code list_ack = 12
message_code list_response = 13
message_code rename_request = 14
message_code logout_request = 15
message_code no_delete_confirm = 16

abbrev pub error_code : Error → ℕ
error_code username_not_found = 17
error_code filename_already_exists = 18
error_code file_not_found = 19
error_code filename_not_found = 20
error_code delete_file_error = 21

abbrev pub return_code : Return → ℕ
return_code success = 22
return_code authentication_success = 23
return_code authentication_failure = 24
return_code encryption_failure = 25
return_code send_failure = 26
return_code receive_failure = 27
return_code decryption_failure = 28
return_code wrong_counter = 29
return_code wrong_msg_code = 30
return_code wrong_path = 31
return_code file_already_exists = 32
return_code file_not_found = 33
return_code read_chunk_failure = 34
return_code write_chunk_failure = 35
return_code wrong_file_size = 36
return_code no_delete_confirm = 37
return_code rename_failure = 38
