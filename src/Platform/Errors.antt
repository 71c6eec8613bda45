-- ===== src/Platform/Errors.antt =====
-- platform/domain/error.go and the error values of the components. A domain error is named for its
-- code, which is what a device sees; `fault` stands for an error of a driver or of the network, and
-- `panicked` for a run-time panic.
use Prim.Native.Nat.{ℕ}
use Prim.Native.String.{String}

pub data Error : Type 0 where
  task_locked task_not_assigned task_version_conflict task_not_found task_incomplete : Error
  task_already_completed task_not_in_progress task_not_startable : Error
  warehouse_access_denied idempotency_key_reused messaging_publish_pending : Error
  source_location_invalid destination_location_invalid item_invalid lot_invalid : Error
  validation_sequence_invalid quantity_exceeds_allowed insufficient_stock : Error
  location_capacity_exceeded source_equals_destination : Error
  barcode_unknown barcode_wrong_context remark_required receiving_task_incomplete : Error
  condition_invalid inventory_not_found location_invalid item_not_in_document : Error
  shipment_not_found shipment_not_ready package_incomplete carrier_invalid : Error
  tracking_invalid shipment_version_conflict shipment_already_confirmed : Error
  envelope_invalid invalid_cursor bulkhead_full panicked : Error
  wms_task_not_found wms_version_conflict not_started already_finished scan_mismatch : Error
  scan_type_invalid quantity_invalid command_conflict reason_required operator_required : Error
  scans_incomplete : String → Error
  auth_invalid_credentials auth_session_expired auth_account_locked : Error
  auth_account_disabled access_token_expired access_token_invalid : Error
  refresh_token_invalid refresh_token_expired refresh_token_revoked : Error
  refresh_token_reused session_revoked user_disabled session_device_mismatch : Error
  device_not_registered : Error
  fault : ℕ → Error

-- The code of a domain error; an error that is none is audited as INTERNAL_ERROR.
unfoldable pub code : Error → String
code Error.task_locked = "TASK_LOCKED"
code Error.task_not_assigned = "TASK_NOT_ASSIGNED"
code Error.task_version_conflict = "TASK_VERSION_CONFLICT"
code Error.task_not_found = "TASK_NOT_FOUND"
code Error.task_incomplete = "TASK_INCOMPLETE"
code Error.task_already_completed = "TASK_ALREADY_COMPLETED"
code Error.task_not_in_progress = "TASK_NOT_IN_PROGRESS"
code Error.task_not_startable = "TASK_NOT_STARTABLE"
code Error.warehouse_access_denied = "WAREHOUSE_ACCESS_DENIED"
code Error.idempotency_key_reused = "IDEMPOTENCY_KEY_REUSED"
code Error.messaging_publish_pending = "MESSAGING_PUBLISH_PENDING"
code Error.source_location_invalid = "SOURCE_LOCATION_INVALID"
code Error.destination_location_invalid = "DESTINATION_LOCATION_INVALID"
code Error.item_invalid = "ITEM_INVALID"
code Error.lot_invalid = "LOT_INVALID"
code Error.validation_sequence_invalid = "VALIDATION_SEQUENCE_INVALID"
code Error.quantity_exceeds_allowed = "QUANTITY_EXCEEDS_ALLOWED"
code Error.insufficient_stock = "INSUFFICIENT_STOCK"
code Error.location_capacity_exceeded = "LOCATION_CAPACITY_EXCEEDED"
code Error.source_equals_destination = "SOURCE_EQUALS_DESTINATION"
code Error.barcode_unknown = "BARCODE_UNKNOWN"
code Error.barcode_wrong_context = "BARCODE_WRONG_CONTEXT"
code Error.remark_required = "REMARK_REQUIRED"
code Error.receiving_task_incomplete = "RECEIVING_TASK_INCOMPLETE"
code Error.condition_invalid = "CONDITION_INVALID"
code Error.inventory_not_found = "INVENTORY_NOT_FOUND"
code Error.location_invalid = "LOCATION_INVALID"
code Error.item_not_in_document = "ITEM_NOT_IN_DOCUMENT"
code Error.shipment_not_found = "SHIPMENT_NOT_FOUND"
code Error.shipment_not_ready = "SHIPMENT_NOT_READY"
code Error.package_incomplete = "PACKAGE_INCOMPLETE"
code Error.carrier_invalid = "CARRIER_INVALID"
code Error.tracking_invalid = "TRACKING_INVALID"
code Error.shipment_version_conflict = "SHIPMENT_VERSION_CONFLICT"
code Error.shipment_already_confirmed = "SHIPMENT_ALREADY_CONFIRMED"
code Error.auth_invalid_credentials = "AUTH_INVALID_CREDENTIALS"
code Error.auth_session_expired = "AUTH_SESSION_EXPIRED"
code Error.auth_account_locked = "AUTH_ACCOUNT_LOCKED"
code Error.auth_account_disabled = "AUTH_ACCOUNT_DISABLED"
code Error.access_token_expired = "ACCESS_TOKEN_EXPIRED"
code Error.access_token_invalid = "ACCESS_TOKEN_INVALID"
code Error.refresh_token_invalid = "REFRESH_TOKEN_INVALID"
code Error.refresh_token_expired = "REFRESH_TOKEN_EXPIRED"
code Error.refresh_token_revoked = "REFRESH_TOKEN_REVOKED"
code Error.refresh_token_reused = "REFRESH_TOKEN_REUSED"
code Error.session_revoked = "SESSION_REVOKED"
code Error.user_disabled = "USER_DISABLED"
code Error.session_device_mismatch = "SESSION_DEVICE_MISMATCH"
code Error.device_not_registered = "DEVICE_NOT_REGISTERED"
code _ = "INTERNAL_ERROR"
