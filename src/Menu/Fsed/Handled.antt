-- ===== src/Menu/Fsed/Handled.antt =====
-- internal/menu/fsed.go: every key keeps the text within 400 lines.
