-- ===== src/Service/Messages.antt =====
-- The order of the messages that the service sends to MRNet.
