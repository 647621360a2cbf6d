-- ===== src/FileSystem/Write/Full.antt =====
-- Fat32CreateFile in a directory without room.
