-- ===== src/Server/Control/Fill.antt =====
-- A message that enters the control queue of firmware/product/rbp_server.c.
use mi_remote_usb_bridge.Server.State.{Server}
